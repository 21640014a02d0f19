-- ===== src/Slots/Duplicates.antt =====
-- What `dedup` keeps: it shortens, it loses no entry, and it removes an entry only next to an equal
-- one.
use photon_solana_contracts.Prelude.{
  ◌≤◌, ◌≡◌, ◌≢◌, refl, ap, false, true, ◌||◌, List, [], ◌∷◌, ◌++◌, Bytes, bytes_eq, bytes_eq_iff,
  contains, length, All, arith,
}
use photon_solana_contracts.Slots.{dedup, dedup_after}
use photon_solana_contracts.Slots.Laws.{AreDistinct, contains-append}

length-dedup_after-le : (a : Bytes) (xs : List Bytes) → length (dedup_after a xs) ≤ length xs
unfolding dedup_after
length-dedup_after-le a [] = omega arith
length-dedup_after-le a (x ∷ xs) = ground (arith, length-dedup_after-le x xs)

pub length-dedup-le : (xs : List Bytes) → length (dedup xs) ≤ length xs
unfolding dedup
length-dedup-le [] = omega arith
length-dedup-le (x ∷ xs) = omega (arith, length-dedup_after-le x xs)

contains-dedup_after :
    (a b : Bytes) (xs : List Bytes)
    → (bytes_eq a b || contains (dedup_after a xs) b) ≡ (bytes_eq a b || contains xs b)
unfolding dedup_after contains
contains-dedup_after a b [] = refl
contains-dedup_after a b (x ∷ xs) = ground (arith, bytes_eq_iff a x, contains-dedup_after x b xs)

-- The same members.
pub contains-dedup : (b : Bytes) (xs : List Bytes) → contains (dedup xs) b ≡ contains xs b
unfolding dedup contains
contains-dedup b [] = refl
contains-dedup b (x ∷ xs) = contains-dedup_after x b xs

pub All-ne-dedup_after :
    (d a : Bytes) (xs : List Bytes) → All (λ k. k ≢ d) xs → All (λ k. k ≢ d) (dedup_after a xs)
unfolding dedup_after
All-ne-dedup_after d a [] h = tt
All-ne-dedup_after d a (x ∷ xs) h = ground (arith, All-ne-dedup_after d x xs h.1)

pub All-ne-dedup : (d : Bytes) (xs : List Bytes) → All (λ k. k ≢ d) xs → All (λ k. k ≢ d) (dedup xs)
unfolding dedup
All-ne-dedup d [] h = tt
All-ne-dedup d (x ∷ xs) h = (h.0, All-ne-dedup_after d x xs h.1)

-- Neighbours differ.
abbrev pub NoRepeat : Bytes → List Bytes → Type 0
NoRepeat a [] = Unit
NoRepeat a (x ∷ xs) = (a ≢ x) × NoRepeat x xs

dedup_after-NoRepeat : (a : Bytes) (xs : List Bytes) → NoRepeat a xs → dedup_after a xs ≡ xs
unfolding dedup_after
dedup_after-NoRepeat a [] h = refl
dedup_after-NoRepeat a (x ∷ xs) h = ground (arith, bytes_eq_iff a x, dedup_after-NoRepeat x xs h.1)

NoRepeat-snoc2 :
    (x : Bytes) (xs : List Bytes) (b a : Bytes)
    → NoRepeat x (xs ++ b ∷ [])
    → b ≢ a
    → NoRepeat x (xs ++ b ∷ a ∷ [])
NoRepeat-snoc2 x [] b a h n = (h.0, (n, tt))
NoRepeat-snoc2 x (y ∷ xs) b a h n = (h.0, NoRepeat-snoc2 y xs b a h.1 n)

AreDistinct-NoRepeat : (x : Bytes) (xs : List Bytes) → AreDistinct (x ∷ xs) → NoRepeat x xs
unfolding contains
AreDistinct-NoRepeat x [] h = tt
AreDistinct-NoRepeat x (y ∷ xs) h =
    (λ e. ground (arith, bytes_eq_iff y x), AreDistinct-NoRepeat y xs h.1)

-- A list without repetition, and one more entry that differs from its last one, pass unchanged.
pub dedup-snoc2 :
    (xs : List Bytes) (b a : Bytes)
    → AreDistinct (xs ++ b ∷ [])
    → b ≢ a
    → dedup (xs ++ b ∷ a ∷ []) ≡ xs ++ b ∷ a ∷ []
unfolding dedup
dedup-snoc2 [] b a h n = ap (◌∷◌ b) (dedup_after-NoRepeat b (a ∷ []) (n, tt))
dedup-snoc2 (x ∷ xs) b a h n = ap (◌∷◌ x) (
    dedup_after-NoRepeat x (xs ++ b ∷ a ∷ [])
      (NoRepeat-snoc2 x xs b a (AreDistinct-NoRepeat x (xs ++ b ∷ []) h) n))

-- The two parts of a list without repetition share no entry.
pub AreDistinct-append :
    (xs ys : List Bytes) (a : Bytes)
    → AreDistinct (xs ++ ys)
    → contains xs a ≡ true
    → contains ys a ≡ false
unfolding contains
AreDistinct-append [] ys a h c = cc
AreDistinct-append (x ∷ xs) ys a h c =
    ground (arith, bytes_eq_iff x a, contains-append xs ys x, AreDistinct-append xs ys a h.1)
