-- ===== src/Services/Retro/Rounds.antt =====
-- The rounds: every transaction that succeeds and logs is sent once, in order.
use photon_solana_contracts.Prelude.{
  ℕ, ◌≡◌, refl, sym, ap, ◌∙◌, subst, Bool, true, false, Bytes, List, [], ◌∷◌, ◌++◌, append_assoc,
  Option, none, some, length, length-append, arith, inl, inr,
}
use photon_solana_contracts.Slots.Laws.{AreDistinct}
use photon_solana_contracts.Services.Retro.{
  Node, Fetched, LogsBunch, signature_of_back, finished, ReaderState, choose_until, read_pages,
  read_round, read_rounds, next_state, initial_state,
}
use photon_solana_contracts.Services.Retro.Pages.{
  newer, oldest_first, oldest_first-append, read_pages-newer,
}
use photon_solana_contracts.Services.Retro.Sent.{
  Episode, nodes, sent_once, IsHistory, IsSilent, IsSilent-append, oldest_first_silent,
  newer-append, newest_sent,
}

module _ (transaction : Bytes → Fetched) where
  -- What a round sends that stops at `known`, above which the ledger of before is silent.
  round_sends :
      (fuel : ℕ) (e : Episode) (state : ReaderState) (known : Bytes) (need_check : Bool)
      (front left : List Bytes)
      → choose_until state ≡ (some known, need_check)
      → IsSilent transaction front
      → IsHistory transaction fuel (front ++ known ∷ left) (e ∷ [])
      → read_round fuel e.node state ≡ finished (oldest_first transaction need_check e.news [])
  unfolding read_round
  round_sends fuel e state known need_check front left chosen silent
        (is_node, distinct, enough, same, _) =
      let ledger = e.news ++ (front ++ known ∷ left) in
      let split : ledger ≡ (e.news ++ front) ++ known ∷ left =
        sym (append_assoc e.news front (known ∷ left)) in
      let upto : newer (some known) ledger ≡ e.news ++ front =
        ap (newer (some known)) split
        ∙ newer-append transaction known (e.news ++ front) left
            (subst AreDistinct split distinct) in
      ap (λ (c : Option Bytes × Bool). read_pages e.node fuel c.0 c.1 false (none, [])) chosen
      ∙ read_pages-newer e.node ledger (some known) need_check is_node fuel (
          omega (
            arith,
            enough,
            ap length upto,
            ap length split,
            length-append (e.news ++ front) (known ∷ left),
          ))
      ∙ ap finished (
          ap (λ t. oldest_first t need_check (newer (some known) ledger) []) same
          ∙ ap (λ l. oldest_first transaction need_check l []) upto
          ∙ oldest_first-append transaction need_check e.news front []
          ∙ oldest_first_silent transaction need_check front
              (oldest_first transaction need_check e.news []) silent)

  read_one :
      (fuel : ℕ) (node : Node) (later : List Node) (state : ReaderState) (bunches : List LogsBunch)
      → read_round fuel node state ≡ finished bunches
      → read_rounds fuel (node ∷ later) state
        ≡ bunches ∷ read_rounds fuel later (next_state state bunches)
  unfolding read_rounds
  read_one fuel node later state bunches e = ground (arith, e)

  abbrev by_next : Option Bytes → Option Bytes → Option Bytes × Bool
  by_next (some signature) until = (some signature, false)
  by_next none until = (until, false)

  choose_later :
      (until next : Option Bytes)
      → choose_until (record { tx_read_from = none; until = until; next_until = next })
        ≡ by_next next until
  unfolding choose_until
  choose_later until none = refl
  choose_later until (some signature) = refl

  choose_next :
      (state : ReaderState) (bunches : List LogsBunch) (known : Bytes) {next : Option Bytes}
      → (choose_until state).0 ≡ some known
      → signature_of_back bunches ≡ next
      → choose_until (next_state state bunches) ≡ by_next next (some known)
  unfolding next_state
  choose_next state bunches known {next} stops found =
      choose_later (choose_until state).0 (signature_of_back bunches)
      ∙ ap (λ (n : Option Bytes). by_next n (choose_until state).0) found
      ∙ ap (by_next next) stops

  rounds_from :
      (fuel : ℕ) (episodes : List Episode) (state : ReaderState) (known : Bytes) (need_check : Bool)
      (front left : List Bytes)
      → choose_until state ≡ (some known, need_check)
      → IsSilent transaction front
      → IsHistory transaction fuel (front ++ known ∷ left) episodes
      → read_rounds fuel (nodes episodes) state ≡ sent_once transaction need_check episodes
  unfolding read_rounds sent_once
  rounds_from fuel [] state known need_check front left chosen silent history = refl
  rounds_from fuel (e ∷ episodes) state known need_check front left chosen silent
        (is_node, distinct, enough, same, history) =
      let bunches = oldest_first transaction need_check e.news [] in
      let now =
        round_sends fuel e state known need_check front left chosen silent
          (is_node, distinct, enough, same, tt) in
      let stops = ap (λ (c : Option Bytes × Bool). c.0) chosen in
      read_one fuel e.node (nodes episodes) state bunches now
      ∙ ap (λ later. bunches ∷ later)
          (elim (newest_sent transaction need_check e.news) [
            | inl (quiet, absent) ↦
                rounds_from fuel episodes (next_state state bunches) known false (e.news ++ front)
                  left (choose_next state bunches known stops absent)
                  (IsSilent-append transaction e.news front quiet silent)
                  (subst (λ l. IsHistory transaction fuel l episodes)
                    (sym (append_assoc e.news front (known ∷ left))) history)
            | inr (front', x, left', cut, quiet, found) ↦
                rounds_from fuel episodes (next_state state bunches) x false front'
                  (left' ++ (front ++ known ∷ left)) (choose_next state bunches known stops found)
                  quiet
                  (subst (λ l. IsHistory transaction fuel l episodes)
                    (ap (λ l. l ++ (front ++ known ∷ left)) cut
                      ∙ append_assoc front' (x ∷ left') (front ++ known ∷ left))
                    history)
          ])

  -- Let the reader start from the newest transaction of a ledger, and let each round find a node that
  -- answers, page by page, from the ledger of then: some news in front of the ledger of the
  -- round before, with no signature twice, and with fuel for more pages than there are transactions. Then each round sends exactly
  -- the transactions of its news that succeeded and logged something, oldest first, and only those of the
  -- first round to be checked: nothing is lost and nothing is sent twice.
  pub read_rounds-sent_once :
      (fuel : ℕ) (episodes : List Episode) (known : Bytes) (old : List Bytes)
      → IsHistory transaction fuel (known ∷ old) episodes
      → read_rounds fuel (nodes episodes) (initial_state known)
        ≡ sent_once transaction true episodes
  unfolding choose_until initial_state
  read_rounds-sent_once fuel episodes known old history =
      rounds_from fuel episodes (initial_state known) known true [] old refl tt history
