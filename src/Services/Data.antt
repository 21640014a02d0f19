-- ===== src/Services/Data.antt =====
-- The messages of the services (transmitter-common/src/data.rs): operations as the services hold
-- them, their hash, their conversion to the program's types, and the parts of their serialization
-- that the repository writes itself.
pub mod Agreement
pub mod Wire
use photon_solana_contracts.Prelude.{
  ℕ, Bool, true, false, ◌&&◌, Bytes, List, [], ◌∷◌, ◌++◌, Option, none, some, length, take, drop,
  ltb, ◌==◌, if◌then◌else◌, replicate,
}
use photon_solana_contracts.Prelude.BigEndian.{to_be_bytes, from_be_bytes}
use photon_solana_contracts.Errors.{Result, ok, err, panic, ◌>>=◌}
use photon_solana_contracts.Environment.{Environment}
use photon_solana_contracts.ProtocolData.{
  Pubkey, TransmitterSignature, Conversion, converted, rejected, aborted, selector_try_from,
  u64_to_bytes32, u128_to_bytes32, hash_with_message,
}
use photon_solana_contracts.ProtocolData

-- `OperationData`: the selector and the protocol's address are still bytes.
pub record OperationData : Type 0 where
  pub protocol_id : Bytes
  pub meta : Bytes
  pub src_chain_id : ℕ
  pub src_block_number : ℕ
  pub src_op_tx_id : Bytes
  pub nonce : ℕ
  pub dest_chain_id : ℕ
  pub protocol_addr : Bytes
  pub function_selector : Bytes
  pub params : Bytes
  pub reserved : Bytes

abbrev pub default_meta : Bytes
default_meta = replicate 31 0 ++ 1 ∷ []

pub record SignedOperation : Type 0 where
  pub operation_data : OperationData
  pub signatures : List TransmitterSignature
  pub eob_block_number : ℕ

-- `From<TransmitterSignature>`: the two types have the same fields.
unfoldable pub chain_signature : TransmitterSignature → TransmitterSignature
chain_signature value = record { v = value.v; r = value.r; s = value.s }

unfoldable pub op_data_evm : OperationData → Bytes
op_data_evm d =
    d.protocol_id
    ++ (d.meta
        ++ (u128_to_bytes32 d.src_chain_id
            ++ (u64_to_bytes32 d.src_block_number
                ++ (d.src_op_tx_id
                    ++ (u64_to_bytes32 d.nonce
                        ++ (u128_to_bytes32 d.dest_chain_id
                            ++ (d.protocol_addr
                                ++ (d.function_selector ++ (d.params ++ d.reserved)))))))))

module _ (env : Environment) where
  open env use {keccak256, is_utf8}

  unfoldable pub op_hash : OperationData → Bytes
  op_hash d = keccak256 (op_data_evm d)

  -- The first 32 bytes, and an abort where there are fewer.
  unfoldable pub op_hash_with_message : OperationData → Result Bytes
  op_hash_with_message d = hash_with_message env (op_hash d) >>= λ hash.
      if ltb (length hash) 32 then err panic else ok (take 32 hash)

  -- `TryFrom<OperationData>`: an address that is not 32 bytes long is handed back.
  unfoldable pub chain_address : Bytes → Conversion Pubkey
  chain_address address = if length address == 32 then converted address else rejected address

  unfoldable pub with_selector :
      OperationData
      → Pubkey
      → Conversion ProtocolData.FunctionSelector
      → Conversion ProtocolData.OperationData
  with_selector d address (rejected bytes) = rejected bytes
  with_selector d address aborted = aborted
  with_selector d address (converted selector) = converted (record {
    protocol_id = d.protocol_id;
    meta = d.meta;
    src_chain_id = d.src_chain_id;
    src_block_number = d.src_block_number;
    src_op_tx_id = d.src_op_tx_id;
    nonce = d.nonce;
    dest_chain_id = d.dest_chain_id;
    protocol_addr = address;
    function_selector = selector;
    params = d.params;
    reserved = d.reserved;
  })

  unfoldable pub chain_operation : OperationData → Conversion ProtocolData.OperationData
  chain_operation d = elim (chain_address d.protocol_addr) [
    | rejected bytes ↦ rejected bytes
    | aborted ↦ aborted
    | converted address ↦ with_selector d address (selector_try_from is_utf8 d.function_selector)
  ]

-- `u128_serialization`: sixteen bytes, big end first.
unfoldable pub serialize_u128 : ℕ → Bytes
serialize_u128 x = to_be_bytes 16 x

unfoldable pub deserialize_u128 : Bytes → Option ℕ
deserialize_u128 bytes = if length bytes == 16 then some (from_be_bytes bytes) else none

-- `tx_id_serialization`: the first two chunks of at most 32 bytes; `none` where one is missing.
unfoldable pub serialize_tx_id : Bytes → Option (List Bytes)
serialize_tx_id tx_id =
    if ltb 32 (length tx_id) then some (take 32 tx_id ∷ take 32 (drop 32 tx_id) ∷ []) else none

-- Chunks of exactly 32 bytes, joined.
unfoldable pub deserialize_tx_id : List Bytes → Option Bytes
deserialize_tx_id [] = some []
deserialize_tx_id (chunk ∷ chunks) =
    let rest = deserialize_tx_id chunks in
    if length chunk == 32
    then elim rest [ none ↦ none | some bytes ↦ some (chunk ++ bytes) ]
    else none
