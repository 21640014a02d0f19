-- ===== src/Services/Retro/Pages.antt =====
-- One round: the pages together are the whole list of transactions back to the known one.
use photon_solana_contracts.Prelude.{
  ℕ, zero, suc, ◌<◌, ◌≡◌, refl, sym, ap, ◌∙◌, subst, Bool, true, false, Bytes, List, [], ◌∷◌, ◌++◌,
  Option, none, some, All, length, length-drop, take-drop, take, drop, bytes_eq, arith,
  if◌then◌else◌, append_assoc, inl, inr, ◌⊎◌, if-elim,
}
use photon_solana_contracts.Services.Retro.{
  Node, Fetched, LogsBunch, logs_of, bunch_of, push_front, finished, process_signature,
  process_signatures, read_pages,
}

-- The transactions after `until`, in a list that begins with the newest.
unfoldable pub newer : Option Bytes → List Bytes → List Bytes
newer none ledger = ledger
newer (some known) [] = []
newer (some known) (signature ∷ ledger) =
    let rest = newer (some known) ledger in
    if bytes_eq known signature then [] else signature ∷ rest

-- The node's documented answers, on the ledger of the round: a page is never empty while a signature
-- is left.
pub record IsNode (node : Node) (ledger : List Bytes) : Type 0 where
  pub first_page :
      (until : Option Bytes)
      → (n : ℕ) × (node.signatures until none ≡ take (suc n) (newer until ledger))
  pub next_page :
      (until : Option Bytes) (front : List Bytes) (before : Bytes) (left : List Bytes)
      → ledger ≡ front ++ before ∷ left
      → (n : ℕ) × (node.signatures until (some before) ≡ take (suc n) (newer until left))
  pub signatures_valid : All (λ signature. node.is_signature signature ≡ true) ledger

-- The bunch of a transaction, and those of a list, oldest first, in front of others.
abbrev pub bunch_at : (Bytes → Fetched) → Bool → Bytes → Option LogsBunch
bunch_at transaction need_check signature =
    bunch_of need_check signature (transaction signature).slot (logs_of (transaction signature))

unfoldable pub oldest_first :
    (Bytes → Fetched) → Bool → List Bytes → List LogsBunch → List LogsBunch
oldest_first transaction need_check [] bunches = bunches
oldest_first transaction need_check (signature ∷ ledger) bunches =
    oldest_first transaction need_check ledger
      (push_front (bunch_at transaction need_check signature) bunches)

pub oldest_first-append :
    (transaction : Bytes → Fetched) (need_check : Bool) (xs ys : List Bytes)
    (bunches : List LogsBunch)
    → oldest_first transaction need_check (xs ++ ys) bunches
      ≡ oldest_first transaction need_check ys (oldest_first transaction need_check xs bunches)
unfolding oldest_first
oldest_first-append transaction need_check [] ys bunches = refl
oldest_first-append transaction need_check (x ∷ xs) ys bunches =
    oldest_first-append transaction need_check xs ys
      (push_front (bunch_at transaction need_check x) bunches)

List-cases : (xs : List Bytes) → (xs ≡ []) ⊎ ((x : Bytes) × (rest : List Bytes) × (xs ≡ x ∷ rest))
List-cases [] = inl refl
List-cases (x ∷ rest) = inr (x, rest, refl)

newer_nil : (until : Option Bytes) → newer until [] ≡ []
unfolding newer
newer_nil none = refl
newer_nil (some known) = refl

newer_cons :
    (until : Option Bytes) (signature x : Bytes) (left rest : List Bytes)
    → newer until (signature ∷ left) ≡ x ∷ rest
    → newer until (signature ∷ left) ≡ signature ∷ newer until left
unfolding newer
newer_cons none signature x left rest e = refl
newer_cons (some known) signature x left rest e =
    if-elim (bytes_eq known signature) e (λ _ absent. absurd (cc absent)) (λ other _. rw other refl)

-- A page, with its last signature set apart.
page_split :
    (until : Option Bytes) (n : ℕ) (left : List Bytes) (x : Bytes) (rest : List Bytes)
    → newer until left ≡ x ∷ rest
    → (front : List Bytes) × (last : Bytes) × (left' : List Bytes) × (left ≡ front ++ last ∷ left')
      × (take (suc n) (newer until left) ≡ front ++ last ∷ [])
      × (newer until left' ≡ drop (suc n) (newer until left))
page_split until n [] x rest e = absurd (cc (newer_nil until, e))
page_split until zero (signature ∷ left) x rest e =
    let starts = newer_cons until signature x left rest e in
    ([], signature, left, refl, ap (take 1) starts, sym (ap (drop 1) starts))
page_split until (suc n) (signature ∷ left) x rest e =
    let starts = newer_cons until signature x left rest e in
    elim (List-cases (newer until left)) [
      | inl ends ↦
          let whole = starts ∙ ap (◌∷◌ signature) ends in
          (
            [],
            signature,
            left,
            refl,
            ap (take (suc (suc n))) whole,
            ends ∙ sym (ap (drop (suc (suc n))) whole),
          )
      | inr (y, more, goes_on) ↦
          let (front, last, left', split, page, after) = page_split until n left y more goes_on in
          (
            signature ∷ front,
            last,
            left',
            ap (◌∷◌ signature) split,
            ap (take (suc (suc n))) starts ∙ ap (◌∷◌ signature) page,
            after ∙ sym (ap (drop (suc (suc n))) starts),
          )
    ]

process_page :
    (node : Node) (need_check : Bool) (front : List Bytes) (last : Bytes) (before : Option Bytes)
    (bunches : List LogsBunch)
    → All (λ signature. node.is_signature signature ≡ true) (front ++ last ∷ [])
    → process_signatures node need_check (front ++ last ∷ []) (before, bunches)
      ≡ (some last, oldest_first node.transaction need_check (front ++ last ∷ []) bunches)
unfolding process_signatures process_signature oldest_first
process_page node need_check [] last before bunches valid = rw (valid.0) refl
process_page node need_check (x ∷ front) last before bunches valid =
    ap (process_signatures node need_check (front ++ last ∷ [])) (rw (valid.0) refl)
    ∙ process_page node need_check front last (some x)
        (push_front (bunch_at node.transaction need_check x) bunches) valid.1

All-front : (P : Bytes → Type 0) (xs ys : List Bytes) → All P (xs ++ ys) → All P xs × All P ys
All-front P [] ys h = (tt, h)
All-front P (x ∷ xs) ys h = let (front, rest) = All-front P xs ys h.1 in ((h.0, front), rest)

length_after :
    (n : ℕ) (xs : List Bytes) (fuel : ℕ)
    → length xs < suc fuel
    → 0 < length xs
    → length (drop (suc n) xs) < fuel
length_after n [] fuel h k = absurd (omega (arith, k))
length_after n (x ∷ xs) fuel h k = omega (arith, h, length-drop n xs)

module _ (node : Node) (ledger : List Bytes) (until : Option Bytes) (need_check : Bool)
    (is_node : IsNode node ledger) where
  abbrev IsSignature : Bytes → Type 0
  IsSignature signature = node.is_signature signature ≡ true

  valid_page :
      (fr : List Bytes) (last : Bytes) (left : List Bytes)
      → All IsSignature (fr ++ last ∷ left)
      → All IsSignature (fr ++ last ∷ [])
  valid_page [] last left h = (h.0, tt)
  valid_page (x ∷ fr) last left h = (h.0, valid_page fr last left h.1)

  no_page :
      (fuel : ℕ) (has_next : Bool) (before : Option Bytes) (bunches : List LogsBunch)
      → node.signatures until before ≡ []
      → read_pages node (suc fuel) until need_check has_next (before, bunches) ≡ finished bunches
  unfolding read_pages
  no_page fuel has_next before bunches none_left = ground (arith, none_left)

  one_page :
      (fuel : ℕ) (has_next : Bool) (before : Option Bytes) (fr : List Bytes) (last : Bytes)
      (bunches : List LogsBunch)
      → node.signatures until before ≡ fr ++ last ∷ []
      → All IsSignature (fr ++ last ∷ [])
      → read_pages node (suc fuel) until need_check has_next (before, bunches)
        ≡ read_pages node fuel until need_check true
            (process_signatures node need_check (fr ++ last ∷ []) (before, bunches))
  unfolding read_pages
  one_page fuel has_next before [] last bunches page valid = ground (arith, page, valid.0)
  one_page fuel has_next before (x ∷ fr) last bunches page valid = ground (arith, page, valid.0)

  -- The passes of the inner loop, from a page on.
  pages_left :
      (fuel n : ℕ) (has_next : Bool) (before : Option Bytes) (front left : List Bytes)
      (bunches : List LogsBunch)
      → ledger ≡ front ++ left
      → node.signatures until before ≡ take (suc n) (newer until left)
      → length (newer until left) < fuel
      → read_pages node fuel until need_check has_next (before, bunches)
        ≡ finished (oldest_first node.transaction need_check (newer until left) bunches)
  unfolding read_pages oldest_first
  pages_left zero n has_next before front left bunches split page enough =
      absurd (omega (arith, enough))
  pages_left (suc fuel) n has_next before front left bunches split page enough =
      elim (List-cases (newer until left)) [
        | inl ends ↦
            let none_left : node.signatures until before ≡ [] = page ∙ ap (take (suc n)) ends in
            no_page fuel has_next before bunches none_left
            ∙ ap (λ l. finished (oldest_first node.transaction need_check l bunches)) (sym ends)
        | inr (x, rest, some_left) ↦
            let (fr, last, left', cut, is_page, after) = page_split until n left x rest some_left in
            let whole : ledger ≡ (front ++ fr) ++ last ∷ left' =
              split ∙ ap (λ l. front ++ l) cut ∙ sym (append_assoc front fr (last ∷ left')) in
            let valid =
              valid_page fr last left'
                (All-front _ front (fr ++ last ∷ left') (
                  subst (All IsSignature) (split ∙ ap (λ l. front ++ l) cut)
                    is_node.signatures_valid)).1 in
            let (n', next) = is_node.next_page until (front ++ fr) last left' whole in
            let bunches' = oldest_first node.transaction need_check (fr ++ last ∷ []) bunches in
            one_page fuel has_next before fr last bunches (page ∙ is_page) valid
            ∙ ap (read_pages node fuel until need_check true)
                (process_page node need_check fr last before bunches valid)
            ∙ pages_left fuel n' true (some last) ((front ++ fr) ++ last ∷ []) left' bunches'
                (whole ∙ sym (append_assoc (front ++ fr) (last ∷ []) left')) next
                (omega (
                  arith,
                  ap length after,
                  length_after n (newer until left) fuel enough
                      (omega (arith, ap length some_left)),
                ))
            ∙ ap finished (
                sym (
                  oldest_first-append node.transaction need_check (fr ++ last ∷ [])
                    (newer until left') bunches)
                ∙ ap (λ l. oldest_first node.transaction need_check l bunches)
                    (ap (λ l. l ++ newer until left') (sym is_page)
                      ∙ ap (λ l. take (suc n) (newer until left) ++ l) after
                      ∙ take-drop (suc n) (newer until left)))
      ]

  -- With fuel for one pass more than there are new transactions, the pages of a round hold all of them.
  pub read_pages-newer :
      (fuel : ℕ)
      → length (newer until ledger) < fuel
      → read_pages node fuel until need_check false (none, [])
        ≡ finished (oldest_first node.transaction need_check (newer until ledger) [])
  read_pages-newer fuel enough =
      let (n, page) = is_node.first_page until in
      pages_left fuel n false none [] ledger [] refl page enough
