-- ===== src/Endpoint/Tests/Edges.antt =====
-- The signing at its limits, the governance handler and the built call, on the concrete system.
use photon_solana_contracts.Prelude.{
  ℕ, ◌≡◌, ◌≢◌, refl, true, false, Bytes, List, [], ◌∷◌, arith, replicate, contains, bytes_eq, map,
  All,
}
use photon_solana_contracts.Prelude.BigEndian.{from_be_bytes}
use photon_solana_contracts.Prelude.Assoc.{lookup, insert}
use photon_solana_contracts.Environment.{AccountMeta, CpiInstruction}
use photon_solana_contracts.Slots.{store, assign_from, assign, without, active}
use photon_solana_contracts.Slots.Laws.{padded}
use photon_solana_contracts.Slots.Packed.{IsPacked-padded}
use photon_solana_contracts.State.{
  System, OpInfo, ProtocolInfo, transmitters, executors, max_signers,
}
use photon_solana_contracts.ProtocolData.{
  EthAddress, default_eth_address, default_pubkey, gov_protocol_id, by_code, dummy, ecrecover,
  derive_eth_address, OpStatus,
}
use photon_solana_contracts.Gov.Operation.{
  gov_operation_of, try_from_u32, find_code, code_of, decode_abi_params, token_at, pubkey_of,
  target_protocol_by_code, target_protocol, abi_decode_scheme,
}
use photon_solana_contracts.Gov.Members.{key_param, add_executor, add_executor_key, store_executors}
use photon_solana_contracts.Gov.Dispatch.{run_gov_operation, handle_gov_operation}
use photon_solana_contracts.Endpoint.Accounts.{
  check_seed, protocol_account, op_account, check_executor, write_protocol,
}
use photon_solana_contracts.Endpoint.Load.Effects.{loaded}
use photon_solana_contracts.Endpoint.Sign.{consensus_rate, sign_loop, sign_op}
use photon_solana_contracts.Endpoint.Sign.Consensus.{HasSlots}
use photon_solana_contracts.Endpoint.Sign.Limits.{sign_op-unreachable}
use photon_solana_contracts.Endpoint.Execute.{program_account, sighash, call_of, build_call}
use photon_solana_contracts.Endpoint.Execute.Effects.{build_call_ok}
use photon_solana_contracts.Endpoint.Receive.{receive_photon_msg}
use photon_solana_contracts.Endpoint.Receive.Effects.{GovCall, receive_photon_msg_ok}
use photon_solana_contracts.Toy.{
  env, initial, call, executor, program, alice, bob, signature_of, protocol_id, info,
}

-- Eighteen transmitters who must all sign.
abbrev crowd : List EthAddress
crowd =
    map (λ n. replicate 20 n)
      (1 ∷ 2 ∷ 3 ∷ 4 ∷ 5 ∷ 6 ∷ 7 ∷ 8 ∷ 9 ∷ 10 ∷ 11 ∷ 12 ∷ 13 ∷ 14 ∷ 15 ∷ 16 ∷ 17 ∷ 18 ∷ [])

abbrev crowded : ProtocolInfo
crowded = record info { transmitter_slots = padded 20 default_eth_address crowd }

abbrev op_of : List EthAddress → OpInfo
op_of signers = record (loaded call) {
  status = OpStatus.init;
  unique_signers = padded max_signers default_eth_address signers;
}

differ : (m n : ℕ) → m ≢ n → (x : Bytes) (y : Bytes) → ◌≢◌ {A = Bytes} (m ∷ x) (n ∷ y)
differ m n h x y e = absurd (h (cc e))

slots_of_none : HasSlots (op_of [])
slots_of_none = IsPacked-padded max_signers default_eth_address [] tt tt (omega arith)

slots_of_two : HasSlots (op_of (alice ∷ bob ∷ []))
unfolding contains bytes_eq
slots_of_two =
    IsPacked-padded max_signers default_eth_address (alice ∷ bob ∷ [])
      (differ 6 0 (omega arith) _ _, (differ 8 0 (omega arith) _ _, tt)) (refl, (refl, tt))
      (omega arith)

sign_op-unreachable_example : (false ≡ false) × (OpStatus.init ≡ OpStatus.init)
unfolding sign_op sign_loop consensus_rate ecrecover derive_eth_address bytes_eq contains
    transmitters active without store assign_from assign
sign_op-unreachable_example =
    sign_op-unreachable env crowded [] (signature_of (replicate 20 6) ∷ []) (op_of [])
      {op' = op_of (alice ∷ [])} {answer = false} {approved = false} slots_of_none (omega arith)
      refl

abbrev built : CpiInstruction
built = record {
  program_id = program;
  metas =
      record { key = executor; is_signer = true; is_writable = true }
      ∷ record { key = replicate 32 3; is_signer = true; is_writable = false }
      ∷ record { key = replicate 32 3; is_signer = false; is_writable = true }
      ∷ [];
  ix_data = b'g' ∷ b'l' ∷ b'o' ∷ b'b' ∷ b'a' ∷ b'l' ∷ b':' ∷ b'r' ∷ [];
}

build_call_ok_example :
    ((p : AccountMeta) × (rest : List AccountMeta) × (record {
      key = program;
      is_signer = false;
      is_writable = false;
    }
          ∷ []
        ≡ p ∷ rest)
      × (p.key ≡ program))
    × (program ≡ program)
    × All (λ (a : AccountMeta). bytes_eq a.key program ≡ false) built.metas
    × (call.function_selector ≡ dummy → ⊥)
unfolding build_call program_account call_of sighash bytes_eq
build_call_ok_example =
    build_call_ok env executor [] call
      (record { key = program; is_signer = false; is_writable = false } ∷ []) {ix = built} refl

-- A signed operation of the governance protocol that adds a second executor.
abbrev gov_op : OpInfo
gov_op =
    record (loaded (record call {
      protocol_id = gov_protocol_id;
      protocol_addr = env.photon_id;
      function_selector = by_code (0xe0 ∷ 0xaa ∷ 0xfb ∷ 0x68 ∷ []);
      params = replicate 32 11;
    })) { status = OpStatus.signed }

abbrev governed : System
governed = record initial { ops = ([], gov_op) ∷ [] }

abbrev two_executors : ProtocolInfo
two_executors = record info {
  executor_slots = padded 20 default_pubkey (executor ∷ replicate 32 11 ∷ []);
}

receive_photon_msg_ok_example :
    GovCall env executor []
      (0xe0 ∷ 0xaa ∷ 0xfb ∷ 0x68 ∷ [])
      governed
      (write_protocol protocol_id two_executors governed)
unfolding receive_photon_msg op_account protocol_account check_seed check_executor target_protocol
    target_protocol_by_code gov_operation_of try_from_u32 find_code code_of from_be_bytes
    decode_abi_params abi_decode_scheme token_at pubkey_of key_param add_executor add_executor_key
    store_executors run_gov_operation handle_gov_operation executors active store assign_from assign
    lookup insert bytes_eq contains
receive_photon_msg_ok_example =
    receive_photon_msg_ok env executor (replicate 32 3) [] (0xe0 ∷ 0xaa ∷ 0xfb ∷ 0x68 ∷ []) []
      governed refl
