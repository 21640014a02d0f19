-- ===== src/Prelude/Assoc.antt =====
-- Association lists with byte-string keys: the accounts of a program, each under its seed.
use photon_solana_contracts.Prelude.{
  ◌≡◌, refl, Option, none, some, List, [], ◌∷◌, arith, Bytes, bytes_eq, bytes_eq_iff, bytes_eq_refl,
  bytes_eq_ne, ◌≢◌, if◌then◌else◌,
}

module _ {ℓ} {V : Type ℓ} where
  unfoldable pub lookup : Bytes → List (Bytes × V) → Option V
  lookup k [] = none
  lookup k ((j, v) ∷ m) = if bytes_eq j k then some v else lookup k m

  unfoldable pub insert : Bytes → V → List (Bytes × V) → List (Bytes × V)
  insert k v [] = (k, v) ∷ []
  insert k v ((j, w) ∷ m) = if bytes_eq j k then (k, v) ∷ m else (j, w) ∷ insert k v m

  pub lookup-insert :
      (written asked : Bytes) (new : V) (entries : List (Bytes × V))
      → lookup asked (insert written new entries)
        ≡ (if bytes_eq written asked then some new else lookup asked entries)
  unfolding insert lookup
  lookup-insert written asked new [] = refl
  lookup-insert written asked new ((here, old) ∷ entries) = ground (
    arith,
    lookup-insert written asked new entries,
    bytes_eq_iff here written,
    bytes_eq_iff here asked,
    bytes_eq_iff written asked,
  )

  pub lookup-insert_self :
      (k : Bytes) (v : V) (m : List (Bytes × V)) → lookup k (insert k v m) ≡ some v
  lookup-insert_self k v m = rw (lookup-insert, bytes_eq_refl k)

  pub lookup-insert_ne :
      (k j : Bytes) (v : V) (m : List (Bytes × V)) → k ≢ j → lookup j (insert k v m) ≡ lookup j m
  lookup-insert_ne k j v m h = rw (lookup-insert, bytes_eq_ne k j h)
