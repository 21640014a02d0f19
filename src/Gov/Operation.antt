-- ===== src/Gov/Operation.antt =====
-- Governance selectors and the decoding of calldata (gov.rs).
use photon_solana_contracts.Prelude.{
  ℕ, ◌^◌, List, [], ◌∷◌, Bytes, Option, none, some, length, take, get_elem?, ltb, ◌==◌,
  if◌then◌else◌,
}
use photon_solana_contracts.Prelude.BigEndian.{from_be_bytes}
use photon_solana_contracts.Errors.{
  Result, ok, err, custom, panic, invalid_proto_msg, invalid_gov_msg, ok_or, ◌>>=◌,
}
use photon_solana_contracts.Environment.{Environment}
use photon_solana_contracts.ProtocolData.{Pubkey, FunctionSelector, by_code, by_name, dummy}

pub data GovOperation : Type 0 where
  add_allowed_protocol add_allowed_protocol_address remove_allowed_protocol_address : GovOperation
  add_allowed_proposer_address remove_allowed_proposer_address : GovOperation
  add_executor remove_executor : GovOperation
  add_transmitters remove_transmitters update_transmitters : GovOperation
  set_consensus_target_rate : GovOperation

-- `#[repr(u32)]`
unfoldable pub code_of : GovOperation → ℕ
code_of add_allowed_protocol = 0x45a004b9
code_of add_allowed_protocol_address = 0xd296a0ff
code_of remove_allowed_protocol_address = 0xb0a4ca98
code_of add_allowed_proposer_address = 0xce0940a5
code_of remove_allowed_proposer_address = 0xb8e5f3f4
code_of add_executor = 0xe0aafb68
code_of remove_executor = 0x04fa384a
code_of add_transmitters = 0x6c5f5666
code_of remove_transmitters = 0x5206da70
code_of update_transmitters = 0x654b46e1
code_of set_consensus_target_rate = 0x970b6109

-- The derived `TryFromPrimitive`: the variant with that discriminant.
unfoldable pub find_code : ℕ → List GovOperation → Option GovOperation
find_code n [] = none
find_code n (g ∷ gs) = if code_of g == n then some g else find_code n gs

abbrev variants : List GovOperation
variants =
    add_allowed_protocol ∷ add_allowed_protocol_address ∷ remove_allowed_protocol_address
    ∷ add_allowed_proposer_address ∷ remove_allowed_proposer_address ∷ add_executor
    ∷ remove_executor ∷ add_transmitters ∷ remove_transmitters ∷ update_transmitters
    ∷ set_consensus_target_rate ∷ []

unfoldable pub try_from_u32 : ℕ → Option GovOperation
try_from_u32 n = find_code n variants

abbrev pub u32_size : ℕ
u32_size = 4

-- The selector of an operation's code, as `handle_gov_operation` and `target_protocol_by_code` read
-- it.
unfoldable pub gov_operation_of : Bytes → Option GovOperation
gov_operation_of code =
    if ltb (length code) u32_size then none else try_from_u32 (from_be_bytes (take u32_size code))

module _ (env : Environment) where
  open env use {Token, ParamType, decode, into_tuple, into_bytes, into_uint, into_fixed_bytes}
  open env use {fixed_bytes_type, uint_type, bytes_type, address_type, array_type, tuple_type}

  unfoldable pub decode_abi_params : Bytes → ParamType → Result (List Token)
  decode_abi_params calldata param_type = do
    decoded ← ok_or (decode (param_type ∷ []) calldata) (custom invalid_proto_msg)
    first ← ok_or (get_elem? decoded 0) (custom invalid_proto_msg)
    ok_or (into_tuple first) (custom invalid_proto_msg)

  -- `params[i]`
  unfoldable pub token_at : List Token → ℕ → Result Token
  token_at params i = ok_or (get_elem? params i) panic

  -- The `u256.as_u64()` of a token: aborts above the range of `u64`.
  unfoldable pub uint_of : Token → Result ℕ
  uint_of t = do
    n ← ok_or (into_uint t) (custom invalid_gov_msg)
    if ltb n (2 ^ 64) then ok n else err panic

  -- `Pubkey::new_from_array(token.into_bytes()?.try_into()?)`
  unfoldable pub pubkey_of : Token → Result Pubkey
  pubkey_of t = do
    bytes ← ok_or (into_bytes t) (custom invalid_gov_msg)
    if length bytes == 32 then ok bytes else err (custom invalid_gov_msg)

  abbrev pub id_and_bytes : ParamType
  id_and_bytes = tuple_type (fixed_bytes_type 32 ∷ bytes_type ∷ [])

  abbrev pub id_and_uint : ParamType
  id_and_uint = tuple_type (fixed_bytes_type 32 ∷ uint_type 256 ∷ [])

  abbrev pub id_and_addresses : ParamType
  id_and_addresses = tuple_type (fixed_bytes_type 32 ∷ array_type address_type ∷ [])

  abbrev pub id_uint_and_addresses : ParamType
  id_uint_and_addresses =
      tuple_type (fixed_bytes_type 32 ∷ uint_type 256 ∷ array_type address_type ∷ [])

  unfoldable pub abi_decode_scheme : GovOperation → ParamType
  abi_decode_scheme add_allowed_protocol = id_uint_and_addresses
  abi_decode_scheme add_allowed_protocol_address = id_and_bytes
  abi_decode_scheme remove_allowed_protocol_address = id_and_bytes
  abi_decode_scheme add_allowed_proposer_address = id_and_bytes
  abi_decode_scheme remove_allowed_proposer_address = id_and_bytes
  abi_decode_scheme add_executor = id_and_bytes
  abi_decode_scheme remove_executor = id_and_bytes
  abi_decode_scheme add_transmitters = id_and_addresses
  abi_decode_scheme remove_transmitters = id_and_addresses
  abi_decode_scheme update_transmitters =
      tuple_type (fixed_bytes_type 32 ∷ array_type address_type ∷ array_type address_type ∷ [])
  abi_decode_scheme set_consensus_target_rate = id_and_uint

  -- `none` where the source returns a text of the reason.
  unfoldable pub target_protocol_by_code : Bytes → Bytes → Option Bytes
  target_protocol_by_code code params = elim (gov_operation_of code) [
    | none ↦ none
    | some g ↦ elim (decode_abi_params params (abi_decode_scheme g) >>= λ ts. token_at ts 0) [
      | err e ↦ none
      | ok t ↦ into_fixed_bytes t
    ]
  ]

  unfoldable pub target_protocol : FunctionSelector → Bytes → Result Bytes
  target_protocol (by_code code) params = ok_or (target_protocol_by_code code params) panic
  target_protocol (by_name name) params = err panic
  target_protocol dummy params = err panic
