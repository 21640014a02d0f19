-- ===== src/Services/Data/Wire.antt =====
-- The serialized transaction id and chain id, read again.
use photon_solana_contracts.Prelude.{
  ℕ, ◌^◌, ◌<◌, ◌≡◌, ◌↔◌, Bytes, [], ◌++◌, append-nil, Option, none, some, length, length-append,
  length-drop, length-take, take-drop, take_all, take, drop, arith,
}
use photon_solana_contracts.Prelude.BigEndian.{length-to_be_bytes, from-to_be_bytes}
use photon_solana_contracts.Services.Data.{
  serialize_tx_id, deserialize_tx_id, serialize_u128, deserialize_u128,
}

-- Serialize, then read the result.
abbrev pub reread_tx_id : Bytes → Option Bytes
reread_tx_id tx_id = elim (serialize_tx_id tx_id) [
  | none ↦ none
  | some chunks ↦ deserialize_tx_id chunks
]

reread_length : (tx_id out : Bytes) → reread_tx_id tx_id ≡ some out → length out ≡ 64
unfolding serialize_tx_id deserialize_tx_id
reread_length tx_id out e = ground (
  arith,
  length-append (take 32 tx_id) (take 32 (drop 32 tx_id) ++ []),
  append-nil (take 32 (drop 32 tx_id)),
)

-- A transaction id is read back unchanged exactly when it has 64 bytes: a shorter one is refused on
-- one of the two sides, and a longer one is cut.
pub deserialize_tx_id-serialize_tx_id :
    (tx_id : Bytes) → (reread_tx_id tx_id ≡ some tx_id) ↔ (length tx_id ≡ 64)
unfolding serialize_tx_id deserialize_tx_id
deserialize_tx_id-serialize_tx_id tx_id = (
  λ e. reread_length tx_id tx_id e,
  λ h.
      let rest : length (drop 32 tx_id) ≡ 32 = omega (arith, length-drop 32 tx_id) in
      ground (
        arith,
        length-take 32 tx_id (omega arith),
        length-take 32 (drop 32 tx_id) (omega arith),
        take_all 32 (drop 32 tx_id) (omega arith),
        append-nil (drop 32 tx_id),
        take-drop 32 tx_id,
      ),
)

-- A chain id of the source's type is read back unchanged.
pub deserialize_u128-serialize_u128 :
    (x : ℕ) → x < 2 ^ 128 → deserialize_u128 (serialize_u128 x) ≡ some x
unfolding serialize_u128 deserialize_u128
deserialize_u128-serialize_u128 x h = ground (arith, length-to_be_bytes 16 x, from-to_be_bytes 16 x)
