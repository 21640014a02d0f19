-- ===== src/Gov/Protocols.antt =====
-- The handlers that register a protocol and set its address and its consensus rate (gov.rs).
use photon_solana_contracts.Prelude.{
  ℕ, ◌+◌, ◌^◌, true, List, [], ◌∷◌, Bytes, ltb, ◌==◌, replicate, if◌then◌else◌,
}
use photon_solana_contracts.Errors.{
  Result, ok, err, custom, panic, consensus_target_rate_too_low, consensus_target_rate_too_high,
  invalid_gov_msg, ok_or, ◌>>=◌, ◌>>◌,
}
use photon_solana_contracts.Environment.{Environment, Network}
use photon_solana_contracts.Slots.{assign_from}
use photon_solana_contracts.ProtocolData.{EthAddress, default_pubkey, gov_protocol_id}
use photon_solana_contracts.State.{Config, ProtocolInfo, ProposeEvent, rate_decimals}
use photon_solana_contracts.Gov.Operation.{
  decode_abi_params, token_at, uint_of, pubkey_of, id_and_bytes, id_and_uint, id_uint_and_addresses,
}

unfoldable pub check_consensus_target_rate : ℕ → Result (Unit {0})
check_consensus_target_rate rate =
    if rate == 0
    then err (custom consensus_target_rate_too_low)
    else if ltb rate_decimals rate
    then err (custom consensus_target_rate_too_high)
    else ok tt

-- `SOLANA_CHAIN_ID`
unfoldable pub solana_chain_id : Network → ℕ
solana_chain_id Network.devnet = 100000000000000000000
solana_chain_id Network.localnet = 100000000000000000000
solana_chain_id Network.mainnet = 11100000000000000501

-- `nonce += 1` with overflow checks.
unfoldable pub next_nonce : ℕ → Result ℕ
next_nonce n = if ltb (n + 1) (2 ^ 64) then ok (n + 1) else err panic

abbrev pub handle_add_allowed_protocol_selector : Bytes
handle_add_allowed_protocol_selector = 0xba ∷ 0x96 ∷ 0x6e ∷ 0x5f ∷ replicate 28 0

module _ (env : Environment) where
  open env use {Token, into_array, into_address, into_fixed_bytes, encode}
  open env use {fixed_bytes_type, uint_type, address_type, array_type, tuple_type}
  open env use {fixed_bytes_token, uint_token, tuple_token, network}

  -- `.map(|x| x.into_address().expect("always address"))`
  unfoldable pub addresses_of : List Token → Result (List EthAddress)
  addresses_of [] = ok []
  addresses_of (t ∷ ts) = do a ← ok_or (into_address t) panic; rest ← addresses_of ts; ok (a ∷ rest)

  unfoldable pub propose_handle_add_allowed_protocol :
      List Token → Config → Result (Config × ProposeEvent)
  propose_handle_add_allowed_protocol params config = do
    bumped ← next_nonce config.nonce
    first ← token_at env params 0
    protocol_id ← ok_or (into_fixed_bytes first) (custom invalid_gov_msg)
    ok (
      record config { nonce = bumped },
      record {
        protocol_id = gov_protocol_id;
        nonce = config.nonce;
        dst_chain_id = config.eob_chain_id;
        protocol_address = config.eob_master_smart_contract;
        function_selector =
            0 ∷ 32 ∷ encode (fixed_bytes_token handle_add_allowed_protocol_selector ∷ []);
        params = encode (
            tuple_token (fixed_bytes_token protocol_id ∷ uint_token (solana_chain_id network) ∷ [])
            ∷ []);
      },
    )

  unfoldable pub add_allowed_protocol :
      Bytes → ProtocolInfo → Config → Result (ProtocolInfo × Config × ProposeEvent)
  add_allowed_protocol calldata info config = do
    params ← decode_abi_params env calldata (id_uint_and_addresses env)
    rate ← (token_at env params 1 >>= uint_of env)
    check_consensus_target_rate rate
    third ← token_at env params 2
    tokens ← ok_or (into_array third) (custom invalid_gov_msg)
    transmitters ← addresses_of tokens
    slots ← assign_from 0 transmitters info.transmitter_slots
    (config', event) ← propose_handle_add_allowed_protocol params config
    ok (
      record info { is_init = true; consensus_target_rate = rate; transmitter_slots = slots },
      config',
      event,
    )

  unfoldable pub add_allowed_protocol_address : Bytes → ProtocolInfo → Result ProtocolInfo
  add_allowed_protocol_address calldata info = do
    params ← decode_abi_params env calldata (id_and_bytes env)
    address ← (token_at env params 1 >>= pubkey_of env)
    ok (record info { protocol_address = address })

  unfoldable pub set_consensus_target_rate : Bytes → ProtocolInfo → Result ProtocolInfo
  set_consensus_target_rate calldata info = do
    params ← decode_abi_params env calldata (id_and_uint env)
    rate ← (token_at env params 1 >>= uint_of env)
    check_consensus_target_rate rate
    ok (record info { consensus_target_rate = rate })

unfoldable pub remove_allowed_protocol_address : ProtocolInfo → ProtocolInfo
remove_allowed_protocol_address info = record info { protocol_address = default_pubkey }
