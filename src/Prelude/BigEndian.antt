-- ===== src/Prelude/BigEndian.antt =====
-- Big-endian integers: `to_be_bytes` and `from_be_bytes` of the unsigned machine words.
use native.Mathlib.Nat.{pow-suc}
use photon_solana_contracts.Prelude.{
  ℕ, zero, suc, ◌+◌, ◌*◌, ◌/◌, ◌%◌, ◌^◌, ◌<◌, ◌≡◌, ap, ◌∙◌, [], ◌∷◌, arith, Bytes, length,
}

-- The low `w` bytes of `x`, most significant first, in front of `rest`.
unfoldable pub be_onto : ℕ → ℕ → Bytes → Bytes
be_onto zero x rest = rest
be_onto (suc w) x rest = be_onto w (x / 256) ((x % 256) ∷ rest)

unfoldable pub to_be_bytes : ℕ → ℕ → Bytes
unfolding be_onto
to_be_bytes w x = be_onto w x []

unfoldable pub from_be_onto : ℕ → Bytes → ℕ
from_be_onto acc [] = acc
from_be_onto acc (b ∷ bs) = from_be_onto (acc * 256 + b) bs

unfoldable pub from_be_bytes : Bytes → ℕ
unfolding from_be_onto
from_be_bytes bs = from_be_onto 0 bs

length-be_onto : (w x : ℕ) (rest : Bytes) → length (be_onto w x rest) ≡ w + length rest
unfolding be_onto
length-be_onto zero x rest = omega arith
length-be_onto (suc w) x rest = omega (arith, length-be_onto w (x / 256) ((x % 256) ∷ rest))

pub length-to_be_bytes : (w x : ℕ) → length (to_be_bytes w x) ≡ w
unfolding to_be_bytes
length-to_be_bytes w x = omega (arith, length-be_onto w x [])

pow_step : (w : ℕ) → 256 ^ suc w ≡ 256 * 256 ^ w
pow_step w = omega (arith, pow-suc 256 w)

be_onto-injective :
    (w x y : ℕ) (a b : Bytes)
    → x < 256 ^ w
    → y < 256 ^ w
    → be_onto w x a ≡ be_onto w y b
    → (x ≡ y) × (a ≡ b)
unfolding be_onto
be_onto-injective zero x y a b hx hy e = (omega arith, e)
be_onto-injective (suc w) x y a b hx hy e =
    let ih =
      be_onto-injective w (x / 256) (y / 256) ((x % 256) ∷ a) ((y % 256) ∷ b)
        (omega (arith, pow_step w)) (omega (arith, pow_step w)) e in
    ground (arith, ih)

-- A word is determined by its bytes.
pub to_be_bytes-injective :
    (w x y : ℕ) → x < 256 ^ w → y < 256 ^ w → to_be_bytes w x ≡ to_be_bytes w y → x ≡ y
unfolding to_be_bytes
to_be_bytes-injective w x y hx hy e = (be_onto-injective w x y [] [] hx hy e).0

from_be-be_onto :
    (w x : ℕ) (rest : Bytes) → x < 256 ^ w → from_be_onto 0 (be_onto w x rest) ≡ from_be_onto x rest
unfolding be_onto from_be_onto
from_be-be_onto zero x rest h = let e : x ≡ 0 = omega arith in rw e
from_be-be_onto (suc w) x rest h =
    from_be-be_onto w (x / 256) ((x % 256) ∷ rest) (omega (arith, pow_step w))
    ∙ ap (λ n. from_be_onto n rest) (omega arith)

pub from-to_be_bytes : (w x : ℕ) → x < 256 ^ w → from_be_bytes (to_be_bytes w x) ≡ x
unfolding to_be_bytes from_be_bytes
from-to_be_bytes w x h = from_be-be_onto w x [] h
