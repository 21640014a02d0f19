-- ===== src/Services/Retro/Tests.antt =====
-- Two rounds at a node with pages of two signatures.
use photon_solana_contracts.Prelude.{
  ◌≡◌, refl, ap, ◌∙◌, subst, Bool, true, Bytes, List, [], ◌∷◌, ◌++◌, Option, none, some, All, take,
  contains, bytes_eq, bytes_eq_iff, arith, if◌then◌else◌,
}
use photon_solana_contracts.Slots.Laws.{AreDistinct, contains-append}
use photon_solana_contracts.Services.Retro.{Node, Fetched, initial_state, read_rounds}
use photon_solana_contracts.Services.Retro.Pages.{newer, IsNode}
use photon_solana_contracts.Services.Retro.Sent.{Episode, nodes, sent_once, IsHistory}
use photon_solana_contracts.Services.Retro.Rounds.{read_rounds-sent_once}

older : Option Bytes → List Bytes → List Bytes
older none ledger = ledger
older (some known) [] = []
older (some known) (signature ∷ ledger) =
    let rest = older (some known) ledger in if bytes_eq known signature then ledger else rest

older-append :
    (known : Bytes) (front left : List Bytes)
    → AreDistinct (front ++ known ∷ left)
    → older (some known) (front ++ known ∷ left) ≡ left
unfolding older contains
older-append known [] left h = ground (arith, bytes_eq_iff known known)
older-append known (x ∷ front) left h = ground (
  arith,
  older-append known front left h.1,
  contains-append front (known ∷ left) x,
  bytes_eq_iff known x,
)

abbrev failing : Bytes
failing = 2 ∷ []

transaction : Bytes → Fetched
transaction signature = record {
  slot = 5;
  meta =
      some (record { has_err = bytes_eq signature failing; log_messages = some ((1 ∷ []) ∷ []) });
}

abbrev node : List Bytes → Node
node ledger = record {
  signatures = λ until before. take 2 (newer until (older before ledger));
  transaction = transaction;
  is_signature = λ signature. true;
}

All-valid : (ledger : List Bytes) → All (λ (signature : Bytes). ◌≡◌ {A = Bool} true true) ledger
All-valid [] = tt
All-valid (x ∷ ledger) = (refl, All-valid ledger)

node-IsNode : (ledger : List Bytes) → AreDistinct ledger → IsNode (node ledger) ledger
unfolding older
node-IsNode ledger distinct = record {
  first_page = λ until. (1, refl);
  next_page = λ until front before left split. (
    1,
    ap (λ l. take 2 (newer until l))
        (ap (older (some before)) split
          ∙ older-append before front left (subst AreDistinct split distinct)),
  );
  signatures_valid = All-valid ledger;
}

abbrev known : Bytes
known = 0 ∷ []

abbrev first_news : List Bytes
first_news = failing ∷ (1 ∷ []) ∷ []

abbrev second_news : List Bytes
second_news = (4 ∷ []) ∷ (3 ∷ []) ∷ []

abbrev ledger : List Bytes
ledger = first_news ++ known ∷ []

abbrev ledger' : List Bytes
ledger' = second_news ++ ledger

abbrev episodes : List Episode
episodes =
    record { node = node ledger; news = first_news }
    ∷ record { node = node ledger'; news = second_news }
    ∷ []

distinct : AreDistinct ledger'
unfolding contains bytes_eq
distinct = (refl, (refl, (refl, (refl, (refl, tt)))))

history : IsHistory transaction 10 (known ∷ []) episodes
history = (
  node-IsNode ledger distinct.1.1,
  distinct.1.1,
  omega arith,
  refl,
  (node-IsNode ledger' distinct, distinct, omega arith, refl, tt),
)

read_rounds-sent_once_example :
    read_rounds 10 (nodes episodes) (initial_state known) ≡ sent_once transaction true episodes
read_rounds-sent_once_example = read_rounds-sent_once transaction 10 episodes known [] history
