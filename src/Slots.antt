-- ===== src/Slots.antt =====
-- The fixed arrays of accounts (`[Pubkey; 20]`, `[EthAddress; 20]`, `[EthAddress; 16]`) in which
-- the default value marks a free slot: how the program reads them (`take_while`) and writes them
-- (reset to the default, then one assignment for each entry).
pub mod Laws
pub mod Packed
pub mod Duplicates
use photon_solana_contracts.Prelude.{
  ℕ, zero, suc, ◌+◌, Bool, true, false, List, [], ◌∷◌, Bytes, bytes_eq, contains, not, filter_b,
  replicate, if◌then◌else◌,
}
use photon_solana_contracts.Errors.{Result, ok, err, panic, ◌>>=◌}

-- `arr[i] = k`, which panics out of bounds.
unfoldable pub assign : List Bytes → ℕ → Bytes → Result (List Bytes)
assign [] i k = err panic
assign (x ∷ xs) zero k = ok (k ∷ xs)
assign (x ∷ xs) (suc i) k = assign xs i k >>= λ ys. ok (x ∷ ys)

-- `for (i, k) in ks.into_iter().enumerate() { arr[i] = k; }`, from index `i` on.
unfoldable pub assign_from : ℕ → List Bytes → List Bytes → Result (List Bytes)
unfolding assign
assign_from i [] arr = ok arr
assign_from i (k ∷ ks) arr = assign arr i k >>= λ arr'. assign_from (i + 1) ks arr'

-- `arr = Default::default()` for an array of `n` slots, and then the loop above.
unfoldable pub store : ℕ → Bytes → List Bytes → Result (List Bytes)
unfolding assign_from
store n d ks = assign_from 0 ks (replicate n d)

-- `arr.into_iter().take_while(|k| k != &Default::default()).collect()`
unfoldable pub active : Bytes → List Bytes → List Bytes
active d [] = []
active d (k ∷ ks) = if bytes_eq k d then [] else k ∷ active d ks

-- `v.into_iter().filter(|x| x != &a).collect()`
unfoldable pub without : Bytes → List Bytes → List Bytes
without a = filter_b (λ x. not (bytes_eq x a))

-- `v.into_iter().filter(|x| !to_remove.contains(x)).collect()`
unfoldable pub without_all : List Bytes → List Bytes → List Bytes
without_all to_remove = filter_b (λ x. not (contains to_remove x))

-- `v.dedup()`: an entry equal to the one before it goes.
unfoldable pub dedup_after : Bytes → List Bytes → List Bytes
dedup_after previous [] = []
dedup_after previous (x ∷ xs) =
    let rest = dedup_after x xs in if bytes_eq previous x then rest else x ∷ rest

unfoldable pub dedup : List Bytes → List Bytes
unfolding dedup_after
dedup [] = []
dedup (x ∷ xs) = x ∷ dedup_after x xs

-- `v.is_empty()`
abbrev pub is_empty {ℓ} : {A : Type ℓ} → List A → Bool
is_empty [] = true
is_empty (x ∷ xs) = false
