-- ===== src/Endpoint/Tests/Stuck.antt =====
-- An operation that a removal of transmitters leaves in `init` for good: alice signs, then bob, the
-- other transmitter, is removed by a governance message, and alice alone is enough from then on.
use photon_solana_contracts.Prelude.{
  ◌≡◌, ◌≢◌, refl, sym, subst, false, ◌++◌, Bytes, List, [], ◌∷◌, some, arith, contains, bytes_eq,
}
use photon_solana_contracts.Prelude.BigEndian.{to_be_bytes, from_be_bytes}
use photon_solana_contracts.Prelude.Assoc.{lookup, insert}
use photon_solana_contracts.Errors.{ok, ok-injective}
use photon_solana_contracts.Environment.{AccountMeta}
use photon_solana_contracts.Slots.{store, assign_from, assign, without, without_all, active}
use photon_solana_contracts.Slots.Laws.{padded}
use photon_solana_contracts.State.{
  System, OpInfo, ProtocolInfo, transmitters, max_signers, emit, proposal_loaded, proposal_approved,
  proposal_executed,
}
use photon_solana_contracts.ProtocolData.{
  msg, default_eth_address, OperationData, by_code, gov_protocol_id, op_hash_with_message, op_hash,
  op_data_evm, selector_evm, u64_to_bytes32, u128_to_bytes32, hash_with_message, ecrecover,
  derive_eth_address, OpStatus,
}
use photon_solana_contracts.Gov.Operation.{
  gov_operation_of, try_from_u32, find_code, code_of, decode_abi_params, token_at,
  target_protocol_by_code, target_protocol, abi_decode_scheme,
}
use photon_solana_contracts.Gov.Members.{
  remove_transmitters, remove_transmitters_impl, get_transmitters_to_remove, addresses_to_remove,
  store_transmitters,
}
use photon_solana_contracts.Gov.Dispatch.{run_gov_operation, handle_gov_operation}
use photon_solana_contracts.Gov.Protocols.{solana_chain_id}
use photon_solana_contracts.Endpoint.Accounts.{
  check_seed, config_account, protocol_account, op_account, check_executor, write_op,
  write_protocol,
}
use photon_solana_contracts.Endpoint.Load.{init_op, load_operation}
use photon_solana_contracts.Endpoint.Load.Effects.{loaded}
use photon_solana_contracts.Endpoint.Sign.{consensus_rate, sign_loop, sign_op, sign_operation}
use photon_solana_contracts.Endpoint.Sign.Consensus.{IsConsensus, signers_of}
use photon_solana_contracts.Endpoint.Receive.{receive_photon_msg}
use photon_solana_contracts.Endpoint.Execute.{
  program_account, sighash, call_of, build_call, invoke_signed, self_call, execute_operation,
}
use photon_solana_contracts.Endpoint.Step.{Instruction, process, run}
use photon_solana_contracts.Endpoint.Step.Execution.{step_ok}
use photon_solana_contracts.Endpoint.Step.Moves.{AllHasSlots, process-AllHasSlots}
use photon_solana_contracts.Endpoint.Step.Stuck.{IsEnough, run-stuck}
use photon_solana_contracts.Endpoint.Tests.{
  hash, accounts, signatures, signing, executing, loaded_system, loaded_slots,
}
use photon_solana_contracts.Toy.{env, call, executor, alice, bob, signature_of, protocol_id, info}

abbrev alice_op : OpInfo
alice_op = record (loaded call) {
  unique_signers = padded max_signers default_eth_address (alice ∷ []);
}

abbrev alice_system : System
alice_system = write_op hash alice_op loaded_system

-- The operation that removes bob from the transmitters.
abbrev removal : OperationData
removal = record call {
  protocol_id = gov_protocol_id;
  protocol_addr = env.photon_id;
  function_selector = by_code (0x52 ∷ 0x06 ∷ 0xda ∷ 0x70 ∷ []);
  params = bob;
}

abbrev removal_hash : Bytes
removal_hash = msg ++ b'p' ∷ b'h' ∷ b'o' ∷ b't' ∷ []

abbrev removal_op : OpInfo
removal_op = record (loaded removal) {
  status = OpStatus.signed;
  unique_signers = padded max_signers default_eth_address (alice ∷ bob ∷ []);
}

abbrev removal_loaded : System
removal_loaded =
    emit (proposal_loaded removal_hash executor)
      (write_op removal_hash (loaded removal) alice_system)

abbrev removal_signed : System
removal_signed =
    emit (proposal_approved removal_hash executor) (write_op removal_hash removal_op removal_loaded)

abbrev without_bob : ProtocolInfo
without_bob = record info { transmitter_slots = padded 20 default_eth_address (alice ∷ []) }

abbrev removed : System
removed = emit (proposal_executed removal_hash executor) (
    write_op removal_hash (record removal_op { status = OpStatus.executed })
      (write_protocol protocol_id without_bob removal_signed))

abbrev program_only : List AccountMeta
program_only = record { key = env.photon_id; is_signer = false; is_writable = false } ∷ []

abbrev alice_signs : Instruction
alice_signs = Instruction.sign_operation executor hash (signature_of alice ∷ [])

abbrev removal_loads : Instruction
removal_loads = Instruction.load_operation executor removal removal_hash

abbrev removal_signs : Instruction
removal_signs = Instruction.sign_operation executor removal_hash signatures

abbrev removal_runs : Instruction
removal_runs = Instruction.execute_operation executor removal_hash program_only

alice_process : process env alice_signs loaded_system ≡ ok alice_system
unfolding process sign_operation sign_op sign_loop consensus_rate op_account check_seed
    protocol_account check_executor ecrecover derive_eth_address bytes_eq contains lookup insert
    transmitters active without store assign_from assign
alice_process = refl

load_process : process env removal_loads alice_system ≡ ok removal_loaded
unfolding process load_operation init_op check_seed config_account protocol_account check_executor
    op_hash_with_message op_hash op_data_evm selector_evm u64_to_bytes32 u128_to_bytes32 to_be_bytes
    hash_with_message bytes_eq contains lookup insert solana_chain_id
load_process = refl

sign_process : process env removal_signs removal_loaded ≡ ok removal_signed
unfolding process sign_operation sign_op sign_loop consensus_rate op_account check_seed
    protocol_account check_executor ecrecover derive_eth_address bytes_eq contains lookup insert
    transmitters active without store assign_from assign
sign_process = refl

removal_process : process env removal_runs removal_signed ≡ ok removed
unfolding process execute_operation op_account check_seed protocol_account check_executor build_call
    program_account call_of sighash invoke_signed self_call receive_photon_msg target_protocol
    target_protocol_by_code gov_operation_of try_from_u32 find_code code_of from_be_bytes
    decode_abi_params abi_decode_scheme token_at remove_transmitters remove_transmitters_impl
    get_transmitters_to_remove addresses_to_remove store_transmitters without_all run_gov_operation
    handle_gov_operation transmitters active without store assign_from assign lookup insert bytes_eq
    contains
removal_process = refl

removed_slots : AllHasSlots removed
removed_slots =
    process-AllHasSlots env removal_runs removal_signed removed
      (process-AllHasSlots env removal_signs removal_loaded removal_signed
        (process-AllHasSlots env removal_loads alice_system removal_loaded
          (process-AllHasSlots env alice_signs loaded_system alice_system loaded_slots
            alice_process)
          load_process)
        sign_process)
      removal_process

-- Everybody signs again, in vain.
signs_in_vain : process env signing removed ≡ ok removed
unfolding process sign_operation sign_op consensus_rate op_account check_seed protocol_account
    check_executor bytes_eq contains lookup insert transmitters active without
signs_in_vain = refl

removed-IsEnough : IsEnough alice_op removed
unfolding protocol_account check_seed lookup bytes_eq transmitters active consensus_rate insert
removed-IsEnough info' found =
    subst (λ i. IsConsensus i (signers_of alice_op)) (ok-injective found) (omega arith)

run-stuck_example :
    (lookup hash (run env removed (signing ∷ executing ∷ [])).ops ≡ some alice_op)
    × (execute_operation env executor hash accounts (run env removed (signing ∷ executing ∷ []))
        ≢ ok removed)
unfolding lookup insert bytes_eq
run-stuck_example =
    run-stuck env (signing ∷ executing ∷ []) removed hash alice_op executor accounts removed
      removed_slots refl refl
      (
        removed-IsEnough,
        (
          subst (IsEnough alice_op) (sym (step_ok env signing removed removed signs_in_vain))
              removed-IsEnough,
          tt,
        ),
      )
