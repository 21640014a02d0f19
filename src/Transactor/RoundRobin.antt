-- ===== src/Transactor/RoundRobin.antt =====
-- `RoundRobin` (solana-transactor/src/round_robin.rs): a pool whose members take turns. The lock
-- around the index makes each pull one step.
use photon_solana_contracts.Prelude.{
  ℕ, zero, suc, ◌+◌, ◌%◌, ◌≤◌, ◌<◌, ◌≡◌, refl, List, [], ◌∷◌, Option, none, some, length, get_elem?,
  ltb, if◌then◌else◌, arith,
}
use native.Mathlib.Nat.{mod-lt}
use photon_solana_contracts.Errors.{Result, ok, err, panic, ◌>>=◌}

pub record RoundRobin {ℓ} (A : Type ℓ) : Type ℓ where
  pub pool : List A
  pub current_index : ℕ

module _ {ℓ} {A : Type ℓ} where
  unfoldable pub new : List A → RoundRobin A
  new pool = record { pool = pool; current_index = 0 }

  -- `(i + 1) % len`, which aborts on an empty pool.
  unfoldable pub next_index : ℕ → List A → Result ℕ
  next_index i [] = err panic
  next_index i (x ∷ pool) = ok ((i + 1) % length (x ∷ pool))

  unfoldable pub pull_next : RoundRobin A → Result (Option A × RoundRobin A)
  pull_next r = next_index r.current_index r.pool >>= λ i.
      ok (get_elem? r.pool r.current_index, record r { current_index = i })

  -- The loop of `pull_by_max`, from index `i` on, with the maximum and its index so far.
  unfoldable pub scan_max : (A → ℕ) → ℕ → List A → ℕ → ℕ → ℕ × ℕ
  scan_max func i [] current_max current_index = (current_max, current_index)
  scan_max func i (a ∷ pool) current_max current_index =
      let better = scan_max func (i + 1) pool (func a) i in
      let same = scan_max func (i + 1) pool current_max current_index in
      if ltb current_max (func a) then better else same

  unfoldable pub pull_by_max : (A → ℕ) → RoundRobin A → Result (Option (A × ℕ) × RoundRobin A)
  pull_by_max func r =
      let (current_max, current_index) = scan_max func 0 r.pool 0 0 in
      next_index current_index r.pool >>= λ i. ok (
        elim (get_elem? r.pool current_index) [ none ↦ none | some a ↦ some (a, current_max) ],
        record r { current_index = i },
      )

  -- Over the whole pool the loop finds a maximum that no member exceeds.
  scan_max_bound :
      (func : A → ℕ) (i : ℕ) (pool : List A) (m j k : ℕ) (a : A)
      → (m ≤ (scan_max func i pool m j).0)
        × (get_elem? pool k ≡ some a → func a ≤ (scan_max func i pool m j).0)
  unfolding scan_max
  scan_max_bound func i [] m j k a = (omega arith, λ e. absurd (cc e))
  scan_max_bound func i (x ∷ pool) m j zero a = ground (
    arith,
    scan_max_bound func (i + 1) pool (func x) i zero a,
    scan_max_bound func (i + 1) pool m j zero a,
  )
  scan_max_bound func i (x ∷ pool) m j (suc k) a = ground (
    arith,
    scan_max_bound func (i + 1) pool (func x) i k a,
    scan_max_bound func (i + 1) pool m j k a,
  )

  in_range : (pool : List A) (i : ℕ) → i < length pool → (a : A) × (get_elem? pool i ≡ some a)
  in_range [] i h = absurd (omega arith)
  in_range (x ∷ pool) zero h = (x, refl)
  in_range (x ∷ pool) (suc i) h = in_range pool i (omega arith)

  next_index_bound :
      (i : ℕ) (pool : List A)
      → 0 < length pool
      → (j : ℕ) × (next_index i pool ≡ ok j) × (j < length pool)
  unfolding next_index
  next_index_bound i [] h = absurd (omega arith)
  next_index_bound i (x ∷ pool) h =
      ((i + 1) % length (x ∷ pool), refl, mod-lt (i + 1) (omega arith))

  -- A pull from a pool whose index is in range gives the member at that index, and leaves the pool
  -- as it is and its index in range.
  pub pull_next_lem :
      (r : RoundRobin A)
      → r.current_index < length r.pool
      → (a : A) × (s : RoundRobin A) × (pull_next r ≡ ok (some a, s))
        × (get_elem? r.pool r.current_index ≡ some a)
        × (s.pool ≡ r.pool)
        × (s.current_index < length s.pool)
  unfolding pull_next
  pull_next_lem r h =
      let (a, at_i) = in_range r.pool r.current_index h in
      let (j, next, small) = next_index_bound r.current_index r.pool (omega arith) in
      (a, record r { current_index = j }, ground arith, at_i, refl, small)

  -- The value that a pull by maximum reports is not exceeded by any member of the pool.
  pub pull_by_max_bound :
      (func : A → ℕ) (r s : RoundRobin A) (a b : A) (m k : ℕ)
      → pull_by_max func r ≡ ok (some (a, m), s)
      → get_elem? r.pool k ≡ some b
      → func b ≤ m
  unfolding pull_by_max
  pull_by_max_bound func r s a b m k e at_k =
      let bound = (scan_max_bound func 0 r.pool 0 0 k b).1 at_k in ground arith
