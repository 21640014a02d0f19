-- ===== src/Gov/Members.antt =====
-- The handlers that change the executors, the proposers and the transmitters of a protocol (gov.rs).
pub mod Executors
pub mod Proposers
pub mod Transmitters
use photon_solana_contracts.Prelude.{
  ℕ, ◌+◌, ◌++◌, Bool, true, false, not, ◌&&◌, List, [], ◌∷◌, Bytes, Option, none, some, length, leb,
  bytes_eq, contains, filter_b, if◌then◌else◌,
}
use photon_solana_contracts.Errors.{
  Result, ok, err, custom, panic, invalid_gov_msg, ok_or, require, ◌>>=◌, ◌>>◌,
  invalid_proposer_address, invalid_executor_address, proposer_is_already_allowed,
  executor_is_already_allowed, max_proposers_exceeded, max_executors_exceeded,
  max_transmitters_exceeded, trying_to_remove_last_gov_executor, no_transmitters_allowed,
}
use photon_solana_contracts.Environment.{Environment}
use photon_solana_contracts.Slots.{store, without, without_all, dedup, is_empty}
use photon_solana_contracts.ProtocolData.{
  Pubkey, EthAddress, default_pubkey, default_eth_address, gov_protocol_id,
}
use photon_solana_contracts.State.{
  ProtocolInfo, max_executors, max_proposers, max_transmitters, executors, proposers, transmitters,
}
use photon_solana_contracts.Gov.Operation.{
  GovOperation, abi_decode_scheme, decode_abi_params, token_at, pubkey_of, id_and_bytes,
}

-- `info.executors = Default::default()` and the loop that fills the slots; so for the other two.
unfoldable pub store_executors : List Pubkey → ProtocolInfo → Result ProtocolInfo
store_executors ks info =
    store max_executors default_pubkey ks >>= λ slots. ok (record info { executor_slots = slots })

unfoldable pub store_proposers : List Pubkey → ProtocolInfo → Result ProtocolInfo
store_proposers ks info =
    store max_proposers default_pubkey ks >>= λ slots. ok (record info { proposer_slots = slots })

unfoldable pub store_transmitters : List EthAddress → ProtocolInfo → Result ProtocolInfo
store_transmitters ks info = store max_transmitters default_eth_address ks >>= λ slots.
    ok (record info { transmitter_slots = slots })

-- The handlers after their calldata is decoded.
unfoldable pub add_proposer_key : Pubkey → ProtocolInfo → Result ProtocolInfo
add_proposer_key key info = do
  let old = proposers info
  require (not (bytes_eq key default_pubkey)) (custom invalid_proposer_address)
  require (not (contains old key)) (custom proposer_is_already_allowed)
  require (not (leb max_proposers (length old))) (custom max_proposers_exceeded)
  store_proposers (old ++ key ∷ []) info

unfoldable pub remove_proposer_key : Pubkey → ProtocolInfo → Result ProtocolInfo
remove_proposer_key key info = store_proposers (without key (proposers info)) info

unfoldable pub add_executor_key : Pubkey → ProtocolInfo → Result ProtocolInfo
add_executor_key key info = do
  require (not (bytes_eq key default_pubkey)) (custom invalid_executor_address)
  let old = executors info
  require (not (contains old key)) (custom executor_is_already_allowed)
  require (not (leb max_executors (length old))) (custom max_executors_exceeded)
  store_executors (old ++ key ∷ []) info

unfoldable pub remove_executor_key : Pubkey → Bytes → ProtocolInfo → Result ProtocolInfo
remove_executor_key key protocol_id info = do
  let rest = without key (executors info)
  require (not (is_empty rest && bytes_eq protocol_id gov_protocol_id))
      (custom trying_to_remove_last_gov_executor)
  store_executors rest info

unfoldable pub add_transmitters_impl : List EthAddress → ProtocolInfo → Result ProtocolInfo
add_transmitters_impl to_add info = do
  let total = dedup (transmitters info ++ to_add)
  require (not (leb max_transmitters (length total))) (custom max_transmitters_exceeded)
  store_transmitters total info

unfoldable pub remove_transmitters_impl : List EthAddress → ProtocolInfo → Result ProtocolInfo
remove_transmitters_impl to_remove info =
    store_transmitters (without_all to_remove (transmitters info)) info

module _ (env : Environment) where
  open env use {Token, into_array, into_address}

  -- The second parameter, as a key of 32 bytes.
  unfoldable pub key_param : Bytes → Result Pubkey
  key_param calldata = do
    params ← decode_abi_params env calldata (id_and_bytes env)
    token_at env params 1 >>= pubkey_of env

  unfoldable pub add_allowed_proposer_address : Bytes → ProtocolInfo → Result ProtocolInfo
  add_allowed_proposer_address calldata info =
      key_param calldata >>= λ proposer. add_proposer_key proposer info

  unfoldable pub remove_allowed_proposer_address : Bytes → ProtocolInfo → Result ProtocolInfo
  remove_allowed_proposer_address calldata info =
      key_param calldata >>= λ proposer. remove_proposer_key proposer info

  unfoldable pub add_executor : Bytes → ProtocolInfo → Result ProtocolInfo
  add_executor calldata info = key_param calldata >>= λ executor. add_executor_key executor info

  unfoldable pub remove_executor : Bytes → Bytes → ProtocolInfo → Result ProtocolInfo
  remove_executor calldata protocol_id info =
      key_param calldata >>= λ executor. remove_executor_key executor protocol_id info

  -- `filter_map(|x| x.into_address())` and the filter of the default address.
  unfoldable pub addresses_to_add : List Token → List EthAddress
  addresses_to_add [] = []
  addresses_to_add (t ∷ ts) =
      let rest = addresses_to_add ts in
      elim (into_address t) [
        | none ↦ rest
        | some a ↦ if bytes_eq a default_eth_address then rest else a ∷ rest
      ]

  unfoldable pub get_transmitters_to_add : Token → Result (List EthAddress)
  get_transmitters_to_add t = do
    tokens ← ok_or (into_array t) (custom invalid_gov_msg)
    ok (addresses_to_add tokens)

  unfoldable pub addresses_to_remove : List Token → Result (List EthAddress)
  addresses_to_remove [] = ok []
  addresses_to_remove (t ∷ ts) = do
    a ← ok_or (into_address t) (custom invalid_gov_msg)
    rest ← addresses_to_remove ts
    ok (a ∷ rest)

  unfoldable pub get_transmitters_to_remove : Token → Result (List EthAddress)
  get_transmitters_to_remove t =
      ok_or (into_array t) (custom invalid_gov_msg) >>= addresses_to_remove

  unfoldable pub add_transmitters : Bytes → ProtocolInfo → Result ProtocolInfo
  add_transmitters calldata info = do
    params ← decode_abi_params env calldata (abi_decode_scheme env GovOperation.add_transmitters)
    to_add ← (token_at env params 1 >>= get_transmitters_to_add)
    require (not (is_empty to_add)) (custom no_transmitters_allowed)
    add_transmitters_impl to_add info

  unfoldable pub remove_transmitters : Bytes → ProtocolInfo → Result ProtocolInfo
  remove_transmitters calldata info = do
    params ← decode_abi_params env calldata (abi_decode_scheme env GovOperation.remove_transmitters)
    to_remove ← (token_at env params 1 >>= get_transmitters_to_remove)
    remove_transmitters_impl to_remove info

  unfoldable pub update_transmitters : Bytes → ProtocolInfo → Result ProtocolInfo
  update_transmitters calldata info = do
    params ← decode_abi_params env calldata (abi_decode_scheme env GovOperation.update_transmitters)
    to_remove ← (token_at env params 2 >>= get_transmitters_to_remove)
    removed ← if is_empty to_remove then ok info else remove_transmitters_impl to_remove info
    to_add ← (token_at env params 1 >>= get_transmitters_to_add)
    if is_empty to_add then ok removed else add_transmitters_impl to_add removed
