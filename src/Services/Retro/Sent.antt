-- ===== src/Services/Retro/Sent.antt =====
-- What the rounds should send, and the transactions of which nothing is sent.
use photon_solana_contracts.Prelude.{
  ℕ, ◌<◌, ◌≡◌, refl, sym, ap, ◌∙◌, Bool, false, Bytes, List, [], ◌∷◌, ◌++◌, Option, Option-cases,
  none, some, length, contains, bytes_eq_iff, arith, ◌⊎◌, inl, inr,
}
use photon_solana_contracts.Slots.Laws.{AreDistinct, contains-append}
use photon_solana_contracts.Services.Retro.{
  Node, Fetched, LogsBunch, back, signature_of_back, push_front, bunch_of, logs_of,
}
use photon_solana_contracts.Services.Retro.Pages.{newer, IsNode, bunch_at, oldest_first}

-- A round of the history: the node, and the transactions since the round before, newest first.
pub record Episode : Type 0 where
  pub node : Node
  pub news : List Bytes

abbrev pub nodes : List Episode → List Node
nodes [] = []
nodes (e ∷ episodes) = e.node ∷ nodes episodes

-- Whether there is something to send does not depend on the check.
bunch_of_none :
    (need_check other : Bool) (signature : Bytes) (slot : ℕ) (logs : Option (List Bytes))
    → bunch_of need_check signature slot logs ≡ none
    → bunch_of other signature slot logs ≡ none
unfolding bunch_of
bunch_of_none need_check other signature slot none e = refl
bunch_of_none need_check other signature slot (some []) e = refl
bunch_of_none need_check other signature slot (some (line ∷ lines)) e = absurd (cc e)

some_bunch : {a b : LogsBunch} → ◌≡◌ {A = Option LogsBunch} (some a) (some b) → a ≡ b
some_bunch e = cc e

bunch_of_signature :
    (need_check : Bool) (signature : Bytes) (slot : ℕ) (logs : Option (List Bytes))
    {bunch : LogsBunch}
    → bunch_of need_check signature slot logs ≡ some bunch
    → bunch.tx_signature ≡ signature
unfolding bunch_of
bunch_of_signature need_check signature slot none e = absurd (cc e)
bunch_of_signature need_check signature slot (some []) e = absurd (cc e)
bunch_of_signature need_check signature slot (some (line ∷ lines)) e =
    ap (λ (b : LogsBunch). b.tx_signature) (sym (some_bunch e))

signature_of_back_lem :
    (bunches : List LogsBunch) {bunch : LogsBunch}
    → back bunches ≡ some bunch
    → signature_of_back bunches ≡ some bunch.tx_signature
unfolding signature_of_back
signature_of_back_lem bunches e = ground (arith, e)

module _ (transaction : Bytes → Fetched) where
  -- What should be sent: in each round the transactions of that round which succeeded and logged
  -- something, oldest first.
  unfoldable pub sent_once : Bool → List Episode → List (List LogsBunch)
  sent_once need_check [] = []
  sent_once need_check (e ∷ episodes) =
      oldest_first transaction need_check e.news [] ∷ sent_once false episodes

  -- Each node answers from the ledger of its round, which has no signature twice and for which the fuel is enough.
  abbrev pub IsHistory : ℕ → List Bytes → List Episode → Type 0
  IsHistory fuel ledger [] = Unit {0}
  IsHistory fuel ledger (e ∷ episodes) =
      IsNode e.node (e.news ++ ledger)
      × AreDistinct (e.news ++ ledger)
      × (length (e.news ++ ledger) < fuel)
      × (e.node.transaction ≡ transaction)
      × IsHistory fuel (e.news ++ ledger) episodes

  -- Nothing in a list is to be sent.
  abbrev pub IsSilent : List Bytes → Type 0
  IsSilent [] = Unit {0}
  IsSilent (x ∷ xs) = ((need_check : Bool) → bunch_at transaction need_check x ≡ none) × IsSilent xs

  pub IsSilent-append : (xs ys : List Bytes) → IsSilent xs → IsSilent ys → IsSilent (xs ++ ys)
  IsSilent-append [] ys h k = k
  IsSilent-append (x ∷ xs) ys h k = (h.0, IsSilent-append xs ys h.1 k)

  pub oldest_first_silent :
      (need_check : Bool) (xs : List Bytes) (bunches : List LogsBunch)
      → IsSilent xs
      → oldest_first transaction need_check xs bunches ≡ bunches
  unfolding oldest_first
  oldest_first_silent need_check [] bunches h = refl
  oldest_first_silent need_check (x ∷ xs) bunches h =
      ap (λ b. oldest_first transaction need_check xs (push_front b bunches)) (h.0 need_check)
      ∙ oldest_first_silent need_check xs bunches h.1

  -- The list up to a signature that occurs once.
  pub newer-append :
      (known : Bytes) (front left : List Bytes)
      → AreDistinct (front ++ known ∷ left)
      → newer (some known) (front ++ known ∷ left) ≡ front
  unfolding newer contains
  newer-append known [] left h = ground (arith, bytes_eq_iff known known)
  newer-append known (x ∷ front) left h = ground (
    arith,
    newer-append known front left h.1,
    contains-append front (known ∷ left) x,
    bytes_eq_iff known x,
  )

  back-oldest_first :
      (need_check : Bool) (xs : List Bytes) (bunch : LogsBunch) (bunches : List LogsBunch)
      → back (oldest_first transaction need_check xs (bunch ∷ bunches)) ≡ back (bunch ∷ bunches)
  unfolding oldest_first back
  back-oldest_first need_check [] bunch bunches = refl
  back-oldest_first need_check (x ∷ xs) bunch bunches =
      let pushed = λ (b : Option LogsBunch).
        back (oldest_first transaction need_check xs (push_front b (bunch ∷ bunches))) in
      elim (Option-cases (bunch_at transaction need_check x)) [
        | inl nothing ↦ ap pushed nothing ∙ back-oldest_first need_check xs bunch bunches
        | inr (front, found) ↦
            ap pushed found ∙ back-oldest_first need_check xs front (bunch ∷ bunches)
      ]

  -- Either a list is silent, or the newest transaction that is not is the signature at the back.
  pub newest_sent :
      (need_check : Bool) (xs : List Bytes)
      → (IsSilent xs × (signature_of_back (oldest_first transaction need_check xs []) ≡ none))
        ⊎ ((front : List Bytes) × (x : Bytes) × (left : List Bytes) × (xs ≡ front ++ x ∷ left)
            × IsSilent front
            × (signature_of_back (oldest_first transaction need_check xs []) ≡ some x))
  unfolding oldest_first signature_of_back back
  newest_sent need_check [] = inl (tt, refl)
  newest_sent need_check (x ∷ xs) =
      let pushed = λ (b : Option LogsBunch).
        signature_of_back (oldest_first transaction need_check xs (push_front b [])) in
      elim (Option-cases (bunch_at transaction need_check x)) [
        | inl nothing ↦
            let silent = λ (other : Bool).
              bunch_of_none need_check other x (transaction x).slot (logs_of (transaction x))
                nothing in
            elim (newest_sent need_check xs) [
              | inl (rest, absent) ↦ inl ((silent, rest), ap pushed nothing ∙ absent)
              | inr (front, y, left, split, rest, found) ↦
                  inr (
                    x ∷ front,
                    y,
                    left,
                    ap (◌∷◌ x) split,
                    (silent, rest),
                    ap pushed nothing ∙ found,
                  )
            ]
        | inr (bunch, found) ↦ inr (
          [],
          x,
          xs,
          refl,
          tt,
          ap pushed found
              ∙ signature_of_back_lem (oldest_first transaction need_check xs (bunch ∷ []))
                  (back-oldest_first need_check xs bunch [])
              ∙ ap some (
                  bunch_of_signature need_check x (transaction x).slot (logs_of (transaction x))
                    found),
        )
      ]
