-- ===== src/Slots/Packed.antt =====
-- Arrays whose used slots stand in front, hold distinct keys, and are followed by free slots only.
use photon_solana_contracts.Prelude.{
  ℕ, ◌-◌, ◌≤◌, ◌≡◌, ◌≢◌, refl, sym, ap, ◌∙◌, subst, ◌⊎◌, inl, inr, zero, suc, ◌<◌, replicate,
  Bool-cases, ltb, bytes_eq_ne, false, List, [], ◌∷◌, ◌++◌, Bytes, bytes_eq_refl, contains, length,
  All, arith,
}
use photon_solana_contracts.Slots.{active, without, store}
use photon_solana_contracts.Errors.{ok, ok-injective}
use photon_solana_contracts.Slots.Laws.{
  padded, store_fits, store_overflow, active-padded, active-All, AreDistinct, contains-padded,
}

pub record IsPacked (n : ℕ) (d : Bytes) (arr : List Bytes) : Type 0 where
  pub packed : arr ≡ padded n d (active d arr)
  pub distinct : AreDistinct (active d arr)
  pub bounded : length (active d arr) ≤ n

pub IsPacked-padded :
    (n : ℕ) (d : Bytes) (ks : List Bytes)
    → All (λ k. k ≢ d) ks
    → AreDistinct ks
    → length ks ≤ n
    → IsPacked n d (padded n d ks)
IsPacked-padded n d ks h dist l =
    let e = active-padded n d ks h in
    record {
      packed = ap (padded n d) (sym e);
      distinct = subst AreDistinct (sym e) dist;
      bounded = subst (λ x. length x ≤ n) (sym e) l;
    }

-- In such an array a search over all slots finds the used ones.
pub contains-IsPacked :
    {n : ℕ} {d : Bytes} {arr : List Bytes} (a : Bytes)
    → IsPacked n d arr
    → a ≢ d
    → contains arr a ≡ contains (active d arr) a
contains-IsPacked {n} {d} {arr} a p h =
    ap (λ xs. contains xs a) p.packed ∙ contains-padded n d (active d arr) a h

-- Taking out what was appended last gives the list back.
pub without-append_self :
    (a : Bytes) (xs : List Bytes) → contains xs a ≡ false → without a (xs ++ a ∷ []) ≡ xs
unfolding without contains
without-append_self a [] h = rw (bytes_eq_refl a)
without-append_self a (x ∷ xs) h = ground (arith, without-append_self a xs)

without-replicate : (d : Bytes) (m : ℕ) → without d (replicate m d) ≡ []
unfolding without
without-replicate d zero = refl
without-replicate d (suc m) = rw (bytes_eq_refl d) (without-replicate d m)

without-active :
    (d : Bytes) (ks : List Bytes) (m : ℕ)
    → All (λ k. k ≢ d) ks
    → without d (ks ++ replicate m d) ≡ ks
unfolding without
without-active d [] m h = without-replicate d m
without-active d (k ∷ ks) m h = rw (bytes_eq_ne k d h.0) (ap (◌∷◌ k) (without-active d ks m h.1))

-- Taking out the free slots leaves the used ones.
pub without-IsPacked :
    {n : ℕ} {d : Bytes} {arr : List Bytes} → IsPacked n d arr → without d arr ≡ active d arr
without-IsPacked {n} {d} {arr} p =
    ap (without d) p.packed
    ∙ without-active d (active d arr) (n - length (active d arr)) (active-All d arr)

lt_or_ge : (m n : ℕ) → (m < n) ⊎ (n ≤ m)
lt_or_ge m n = elim (Bool-cases (ltb m n)) [ inl e ↦ ground arith | inr e ↦ ground arith ]

-- What `store` gives is packed, if it is given distinct keys.
pub store-IsPacked :
    (n : ℕ) (d : Bytes) (ks : List Bytes) {arr : List Bytes}
    → store n d ks ≡ ok arr
    → All (λ k. k ≢ d) ks
    → AreDistinct ks
    → IsPacked n d arr × (active d arr ≡ ks)
store-IsPacked n d ks {arr} e h dist = elim (lt_or_ge n (length ks)) [
  | inl over ↦ absurd (cc (sym (store_overflow n d ks over) ∙ e))
  | inr fits ↦
      let same : padded n d ks ≡ arr = ok-injective (sym (store_fits n d ks fits) ∙ e) in
      (
        subst (IsPacked n d) same (IsPacked-padded n d ks h dist fits),
        ap (active d) (sym same) ∙ active-padded n d ks h,
      )
]
