-- ===== src/Slots/Laws.antt =====
-- What the slot arrays keep: writing a list and reading it back, the panic on a list that is too
-- long, and the effect of the filters on membership.
use photon_solana_contracts.Prelude.{
  ℕ, zero, suc, ◌+◌, ◌-◌, ◌≤◌, ◌<◌, ◌≡◌, ◌≢◌, refl, ap, ◌∙◌, false, ◌||◌, List, [], ◌∷◌, ◌++◌,
  Bytes, bytes_eq, bytes_eq_iff, bytes_eq_ne, bytes_eq_refl, contains, length, length-append,
  length-replicate, length-filter_b-le, All-filter_b, subst, replicate, drop, All, arith,
  append_assoc, if◌then◌else◌,
}
use photon_solana_contracts.Errors.{ok, err, panic, >>=-eq-ok}
use photon_solana_contracts.Slots.{assign, assign_from, store, active, without, without_all}

assign-append :
    (pre rest : List Bytes) (r k : Bytes) (i : ℕ)
    → length pre ≡ i
    → assign (pre ++ (r ∷ rest)) i k ≡ ok (pre ++ (k ∷ rest))
unfolding assign
assign-append [] rest r k zero h = refl
assign-append [] rest r k (suc i) h = absurd (omega arith)
assign-append (x ∷ pre) rest r k zero h = absurd (omega arith)
assign-append (x ∷ pre) rest r k (suc i) h = rw (assign-append pre rest r k i (omega arith))

assign_out_of_bounds :
    (arr : List Bytes) (i : ℕ) (k : Bytes) → length arr ≤ i → assign arr i k ≡ err panic
unfolding assign
assign_out_of_bounds [] i k h = refl
assign_out_of_bounds (x ∷ arr) zero k h = absurd (omega arith)
assign_out_of_bounds (x ∷ arr) (suc i) k h = rw (assign_out_of_bounds arr i k (omega arith))

assign_from-append :
    (ks pre rest : List Bytes) (i : ℕ)
    → length pre ≡ i
    → length ks ≤ length rest
    → assign_from i ks (pre ++ rest) ≡ ok (pre ++ (ks ++ drop (length ks) rest))
unfolding assign_from
assign_from-append [] pre rest i h l = refl
assign_from-append (k ∷ ks) pre [] i h l = absurd (omega arith)
assign_from-append (k ∷ ks) pre (r ∷ rest) i h l = rw (assign-append pre rest r k i h) (
    subst (λ arr. assign_from (i + 1) ks arr ≡ ok (pre ++ k ∷ (ks ++ drop (length ks) rest)))
      (append_assoc pre (k ∷ []) rest)
      (assign_from-append ks (pre ++ k ∷ []) rest (i + 1)
          (omega (arith, length-append pre (k ∷ []))) (omega arith)
        ∙ ap ok (append_assoc pre (k ∷ []) (ks ++ drop (length ks) rest))))

assign_from_overflow :
    (ks pre rest : List Bytes) (i : ℕ)
    → length pre ≡ i
    → length rest < length ks
    → assign_from i ks (pre ++ rest) ≡ err panic
unfolding assign_from
assign_from_overflow [] pre rest i h l = absurd (omega arith)
assign_from_overflow (k ∷ ks) pre [] i h l =
    rw (assign_out_of_bounds (pre ++ []) i k (omega (arith, length-append pre [])))
assign_from_overflow (k ∷ ks) pre (r ∷ rest) i h l = rw (assign-append pre rest r k i h) (
    subst (λ arr. assign_from (i + 1) ks arr ≡ err panic) (append_assoc pre (k ∷ []) rest)
      (assign_from_overflow ks (pre ++ k ∷ []) rest (i + 1)
        (omega (arith, length-append pre (k ∷ []))) (omega arith)))

drop-replicate : (m n : ℕ) (d : Bytes) → drop m (replicate n d) ≡ replicate (n - m) d
drop-replicate zero n d = ap (λ k. replicate k d) (omega arith)
drop-replicate (suc m) zero d = let e : zero - suc m ≡ zero = omega arith in rw e
drop-replicate (suc m) (suc n) d = drop-replicate m n d ∙ ap (λ k. replicate k d) (omega arith)

-- An array of `n` slots that holds `ks` first and the default after it.
abbrev pub padded : ℕ → Bytes → List Bytes → List Bytes
padded n d ks = ks ++ replicate (n - length ks) d

-- A list that fits is stored from the first slot on.
pub store_fits :
    (n : ℕ) (d : Bytes) (ks : List Bytes) → length ks ≤ n → store n d ks ≡ ok (padded n d ks)
unfolding store
store_fits n d ks h =
    assign_from-append ks [] (replicate n d) 0 refl (omega (arith, length-replicate n d))
    ∙ ap (λ rest. ok (ks ++ rest)) (drop-replicate (length ks) n d)

-- A longer one aborts.
pub store_overflow :
    (n : ℕ) (d : Bytes) (ks : List Bytes) → n < length ks → store n d ks ≡ err panic
unfolding store
store_overflow n d ks h =
    assign_from_overflow ks [] (replicate n d) 0 refl (omega (arith, length-replicate n d))

pub length-padded :
    (n : ℕ) (d : Bytes) (ks : List Bytes) → length ks ≤ n → length (padded n d ks) ≡ n
length-padded n d ks h =
    omega
      (arith, length-append ks (replicate (n - length ks) d), length-replicate (n - length ks) d)

active-replicate : (m : ℕ) (d : Bytes) → active d (replicate m d) ≡ []
unfolding active
active-replicate zero d = refl
active-replicate (suc m) d = rw (bytes_eq_refl d)

active-append_default :
    (ks : List Bytes) (m : ℕ) (d : Bytes)
    → All (λ k. k ≢ d) ks
    → active d (ks ++ replicate m d) ≡ ks
unfolding active
active-append_default [] m d h = active-replicate m d
active-append_default (k ∷ ks) m d h =
    rw (bytes_eq_ne k d h.0, active) (ap (◌∷◌ k) (active-append_default ks m d h.1))

-- What is stored is read back, if the default is not among it.
pub active-padded :
    (n : ℕ) (d : Bytes) (ks : List Bytes) → All (λ k. k ≢ d) ks → active d (padded n d ks) ≡ ks
active-padded n d ks h = active-append_default ks (n - length ks) d h

pub active-All : (d : Bytes) (arr : List Bytes) → All (λ k. k ≢ d) (active d arr)
unfolding active
active-All d [] = tt
active-All d (k ∷ ks) = ground (arith, bytes_eq_iff k d, active-All d ks)

pub length-active-le : (d : Bytes) (arr : List Bytes) → length (active d arr) ≤ length arr
unfolding active
length-active-le d [] = omega arith
length-active-le d (k ∷ ks) = ground (arith, length-active-le d ks)

pub contains-append :
    (xs ys : List Bytes) (a : Bytes) → contains (xs ++ ys) a ≡ (contains xs a || contains ys a)
unfolding contains
contains-append [] ys a = refl
contains-append (x ∷ xs) ys a = ground (arith, contains-append xs ys a)

contains-replicate : (m : ℕ) (d a : Bytes) → a ≢ d → contains (replicate m d) a ≡ false
unfolding contains
contains-replicate zero d a h = refl
contains-replicate (suc m) d a h = ground (arith, bytes_eq_iff d a, contains-replicate m d a h)

pub contains-padded :
    (n : ℕ) (d : Bytes) (ks : List Bytes) (a : Bytes)
    → a ≢ d
    → contains (padded n d ks) a ≡ contains ks a
contains-padded n d ks a h = ground (
  arith,
  contains-append ks (replicate (n - length ks) d) a,
  contains-replicate (n - length ks) d a h,
)

pub contains-without :
    (a : Bytes) (xs : List Bytes) (b : Bytes)
    → contains (without a xs) b ≡ (if bytes_eq b a then false else contains xs b)
unfolding contains without
contains-without a [] b = ground arith
contains-without a (x ∷ xs) b =
    ground (arith, bytes_eq_iff b a, bytes_eq_iff x a, bytes_eq_iff x b, contains-without a xs b)

pub contains-without_all :
    (rs xs : List Bytes) (b : Bytes)
    → contains (without_all rs xs) b ≡ (if contains rs b then false else contains xs b)
unfolding contains without_all
contains-without_all rs [] b = ground arith
contains-without_all rs (x ∷ xs) b = ground (arith, bytes_eq_iff x b, contains-without_all rs xs b)

-- No entry occurs twice.
abbrev pub AreDistinct : List Bytes → Type 0
AreDistinct [] = Unit
AreDistinct (x ∷ xs) = (contains xs x ≡ false) × AreDistinct xs

pub AreDistinct-snoc :
    (xs : List Bytes) (a : Bytes)
    → AreDistinct xs
    → contains xs a ≡ false
    → AreDistinct (xs ++ a ∷ [])
unfolding contains
AreDistinct-snoc [] a h n = (refl, tt)
AreDistinct-snoc (x ∷ xs) a h n = ground (
  arith,
  bytes_eq_iff x a,
  bytes_eq_iff a x,
  contains-append xs (a ∷ []) x,
  AreDistinct-snoc xs a h.1,
)

pub AreDistinct-without :
    (a : Bytes) (xs : List Bytes) → AreDistinct xs → AreDistinct (without a xs)
unfolding without
AreDistinct-without a [] h = tt
AreDistinct-without a (x ∷ xs) h =
    ground (arith, contains-without a xs x, bytes_eq_iff x a, AreDistinct-without a xs h.1)

pub length-without-le : (a : Bytes) (xs : List Bytes) → length (without a xs) ≤ length xs
unfolding without
length-without-le a xs = length-filter_b-le _ xs

pub All-ne-without :
    (d a : Bytes) (xs : List Bytes) → All (λ k. k ≢ d) xs → All (λ k. k ≢ d) (without a xs)
unfolding without
All-ne-without d a xs h = All-filter_b _ _ xs h

pub All-ne-without_all :
    (d : Bytes) (rs xs : List Bytes) → All (λ k. k ≢ d) xs → All (λ k. k ≢ d) (without_all rs xs)
unfolding without_all
All-ne-without_all d rs xs h = All-filter_b _ _ xs h

assign-length :
    (arr : List Bytes) (i : ℕ) (k : Bytes) {r : List Bytes}
    → assign arr i k ≡ ok r
    → length r ≡ length arr
unfolding assign
assign-length [] i k e = cc
assign-length (x ∷ xs) zero k e = ground arith
assign-length (x ∷ xs) (suc i) k e =
    let (ys, e', done) = >>=-eq-ok (assign xs i k) _ e in
    let ih = assign-length xs i k e' in ground arith

-- Assignments keep the length of the array.
pub assign_from-length :
    (i : ℕ) (ks arr : List Bytes) {r : List Bytes}
    → assign_from i ks arr ≡ ok r
    → length r ≡ length arr
unfolding assign_from
assign_from-length i [] arr e = ground arith
assign_from-length i (k ∷ ks) arr e =
    let (ys, e', done) = >>=-eq-ok (assign arr i k) _ e in
    assign_from-length (i + 1) ks ys done ∙ assign-length arr i k e'

pub length-without_all-le : (rs xs : List Bytes) → length (without_all rs xs) ≤ length xs
unfolding without_all
length-without_all-le rs xs = length-filter_b-le _ xs
