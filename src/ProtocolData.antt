-- ===== src/ProtocolData.antt =====
-- programs/entangle-photon-sol/src/protocol_data.rs and util.rs: the data of an operation, its hash
-- and the recovery of a signer. Byte vectors and fixed arrays are `Bytes`.
pub mod Encoding
pub mod Selector
pub mod Tests
use photon_solana_contracts.Prelude.{
  ℕ, ◌%◌, Bool, List, [], ◌∷◌, ◌++◌, Bytes, length, replicate, drop, ltb, ◌==◌, if◌then◌else◌,
}
use photon_solana_contracts.Prelude.BigEndian.{to_be_bytes}
use photon_solana_contracts.Errors.{
  Result, ok, err, custom, anchor, panic, selector_too_big, invalid_signature, require_eq_violated,
  ok_or, require, ◌>>=◌, ◌>>◌,
}
use photon_solana_contracts.Environment.{Environment}

abbrev pub Pubkey : Type 0
Pubkey = Bytes

abbrev pub EthAddress : Type 0
EthAddress = Bytes

-- `Pubkey::default()` and `EthAddress::default()`
abbrev pub default_pubkey : Pubkey
default_pubkey = replicate 32 0

abbrev pub default_eth_address : EthAddress
default_eth_address = replicate 20 0

-- b"photon-gov" and 22 zero bytes
abbrev pub gov_protocol_id : Bytes
gov_protocol_id =
    b'p' ∷ b'h' ∷ b'o' ∷ b't' ∷ b'o' ∷ b'n' ∷ b'-' ∷ b'g' ∷ b'o' ∷ b'v' ∷ replicate 22 0

-- "\x19Ethereum Signed Message:\n32"
abbrev pub msg : Bytes
msg =
    0x19 ∷ b'E' ∷ b't' ∷ b'h' ∷ b'e' ∷ b'r' ∷ b'e' ∷ b'u' ∷ b'm' ∷ 0x20 ∷ b'S' ∷ b'i' ∷ b'g' ∷ b'n'
    ∷ b'e' ∷ b'd' ∷ 0x20 ∷ b'M' ∷ b'e' ∷ b's' ∷ b's' ∷ b'a' ∷ b'g' ∷ b'e' ∷ b':' ∷ 0x0a ∷ b'3'
    ∷ b'2' ∷ []

pub record TransmitterSignature : Type 0 where
  pub v : ℕ
  pub r : Bytes
  pub s : Bytes

-- A name is the bytes of its UTF-8 text.
pub data FunctionSelector : Type 0 where
  by_code : Bytes → FunctionSelector
  by_name : Bytes → FunctionSelector
  dummy : FunctionSelector

unfoldable pub to_bytes : FunctionSelector → Result Bytes
to_bytes (by_code code) =
    if ltb 32 (length code)
    then err (custom selector_too_big)
    else ok (0 ∷ (length code % 256) ∷ code)
to_bytes (by_name name) =
    if ltb 32 (length name)
    then err (custom selector_too_big)
    else ok (1 ∷ (length name % 256) ∷ name)
to_bytes dummy = ok (2 ∷ 0 ∷ [])

-- How `TryFrom` ends: with a value, with the error that it carries, or by an abort.
pub data Conversion {ℓ} (A : Type ℓ) : Type ℓ where
  converted : A → Conversion A
  rejected : Bytes → Conversion A
  aborted : Conversion A

abbrev from_utf8 : Bool → Bytes → Conversion FunctionSelector
from_utf8 valid name = if valid then converted (by_name name) else rejected []

-- `TryFrom<&[u8]>`: the length byte is read and not used.
unfoldable pub selector_try_from : (Bytes → Bool) → Bytes → Conversion FunctionSelector
selector_try_from is_utf8 [] = rejected []
selector_try_from is_utf8 (tag ∷ []) =
    if tag == 0 then rejected [] else if tag == 1 then rejected [] else aborted
selector_try_from is_utf8 (tag ∷ len ∷ rest) =
    if tag == 0
    then converted (by_code rest)
    else if tag == 1
    then from_utf8 (is_utf8 rest) rest
    else aborted

pub record OperationData : Type 0 where
  pub protocol_id : Bytes
  pub meta : Bytes
  pub src_chain_id : ℕ
  pub src_block_number : ℕ
  pub src_op_tx_id : Bytes
  pub nonce : ℕ
  pub dest_chain_id : ℕ
  pub protocol_addr : Pubkey
  pub function_selector : FunctionSelector
  pub params : Bytes
  pub reserved : Bytes

unfoldable pub u64_to_bytes32 : ℕ → Bytes
u64_to_bytes32 x = replicate 24 0 ++ to_be_bytes 8 x

unfoldable pub u128_to_bytes32 : ℕ → Bytes
u128_to_bytes32 x = replicate 16 0 ++ to_be_bytes 16 x

-- The `match` of `op_data_evm` on the selector.
unfoldable pub selector_evm : FunctionSelector → Result Bytes
selector_evm (by_code code) = ok (0 ∷ (length code % 256) ∷ code)
selector_evm (by_name name) = ok (1 ∷ (length name % 256) ∷ name)
selector_evm dummy = err panic

unfoldable pub op_data_evm : OperationData → Result Bytes
op_data_evm d = do
  selector ← selector_evm d.function_selector
  ok (
      d.protocol_id
      ++ (d.meta
          ++ (u128_to_bytes32 d.src_chain_id
              ++ (u64_to_bytes32 d.src_block_number
                  ++ (d.src_op_tx_id
                      ++ (u64_to_bytes32 d.nonce
                          ++ (u128_to_bytes32 d.dest_chain_id
                              ++ (d.protocol_addr ++ (selector ++ (d.params ++ d.reserved))))))))))

module _ (env : Environment) where
  open env use {keccak256, secp256k1_recover}

  -- `copy_from_slice` aborts unless the data has 32 bytes.
  unfoldable pub hash_with_message : Bytes → Result Bytes
  hash_with_message hashed =
      if length hashed == 32 then ok (keccak256 (msg ++ hashed)) else err panic

  unfoldable pub op_hash : OperationData → Result Bytes
  op_hash d = op_data_evm d >>= λ buf. ok (keccak256 buf)

  unfoldable pub op_hash_with_message : OperationData → Result Bytes
  op_hash_with_message d = op_hash d >>= hash_with_message

  -- The last 20 bytes of the hash of the key without its first byte.
  unfoldable pub derive_eth_address : Bytes → Result EthAddress
  derive_eth_address [] = err panic
  derive_eth_address (format ∷ key) =
      let address = drop 12 (keccak256 key) in
      if length address == 20 then ok address else err panic

  unfoldable pub ecrecover : Bytes → TransmitterSignature → Result EthAddress
  ecrecover op_hash sig = do
    let signature = sig.r ++ sig.s
    require (length signature == 64) (anchor require_eq_violated)
    pk ← ok_or (secp256k1_recover op_hash (sig.v % 27) signature) (custom invalid_signature)
    derive_eth_address (4 ∷ pk)

pub data OpStatus : Type 0 where
  none init signed executed : OpStatus

-- `#[repr(u8)]`
abbrev pub as_u8 : OpStatus → ℕ
as_u8 none = 0
as_u8 init = 1
as_u8 signed = 2
as_u8 executed = 3

-- The derived `==`.
abbrev pub status_eq : OpStatus → OpStatus → Bool
status_eq a b = as_u8 a == as_u8 b
