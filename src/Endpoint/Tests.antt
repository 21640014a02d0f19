-- ===== src/Endpoint/Tests.antt =====
-- The stages of an operation on the concrete system, and the theorems applied to them.
pub mod Edges
mod Proposals
mod Stuck
mod Stages
use photon_solana_contracts.Prelude.{
  ℕ, ◌≤◌, ◌<◌, ◌≡◌, ◌≢◌, refl, sym, ap, ◌∙◌, ◌⊎◌, Bool, true, false, ◌++◌, Bytes, List, [], ◌∷◌,
  Option, none, some, arith, inl, inr, replicate, contains, length, bytes_eq,
}
use photon_solana_contracts.Prelude.BigEndian.{to_be_bytes}
use photon_solana_contracts.Prelude.Assoc.{lookup, insert}
use photon_solana_contracts.Errors.{Result, ok, err, ◌>>=◌}
use photon_solana_contracts.Environment.{AccountMeta}
use photon_solana_contracts.Slots.{store, assign_from, assign, without, active}
use photon_solana_contracts.Slots.Laws.{padded}
use photon_solana_contracts.State.{
  System, OpInfo, ProtocolInfo, transmitters, max_signers, emit, proposal_loaded, proposal_approved,
  proposal_executed,
}
use photon_solana_contracts.ProtocolData.{
  msg, default_eth_address, OperationData, op_hash_with_message, op_hash, op_data_evm, selector_evm,
  u64_to_bytes32, u128_to_bytes32, hash_with_message, ecrecover, derive_eth_address, OpStatus,
  TransmitterSignature,
}
use photon_solana_contracts.Gov.Protocols.{solana_chain_id}
use photon_solana_contracts.Endpoint.Accounts.{
  check_seed, config_account, protocol_account, op_account, check_executor, write_op,
}
use photon_solana_contracts.Endpoint.Load.{init_op, load_operation}
use photon_solana_contracts.Endpoint.Load.Effects.{
  loaded, IsLoadable, load_operation-effect, load_operation_complete, load_operation-move_params,
}
use photon_solana_contracts.Endpoint.Sign.Loop.{sign_loop_complete}
use photon_solana_contracts.Endpoint.Sign.Limits.{sign_op-unreachable}
use photon_solana_contracts.Endpoint.Execute.Effects.{
  Execution, execute_operation_ok, build_call_ok,
}
use photon_solana_contracts.Endpoint.Receive.Effects.{GovCall, receive_photon_msg_ok}
use photon_solana_contracts.Endpoint.Sign.{consensus_rate, sign_loop, sign_op, sign_operation}
use photon_solana_contracts.Endpoint.Execute.{
  program_account, sighash, call_of, build_call, invoke_signed, execute_operation,
}
use photon_solana_contracts.Endpoint.Step.{Instruction, process, step, run}
use photon_solana_contracts.Endpoint.Step.Execution.{step_ok}
use photon_solana_contracts.Endpoint.Step.Moves.{AllHasSlots, process-AllHasSlots}
use photon_solana_contracts.Endpoint.Step.Lifecycle.{
  Progress, run-Progress, execute_operation-once, AllHashed, run-AllHashed,
}
use photon_solana_contracts.Endpoint.Step.Approval.{
  HasSigned, IsApproved, run-signers, run-IsApproved,
}
use photon_solana_contracts.Endpoint.Sign.Consensus.{
  signers_of, HasSlots, IsConsensus, Signing, sign_op-effect,
}
use photon_solana_contracts.Toy.{
  env, initial, call, executor, program, alice, bob, signature_of, protocol_id, info,
}

abbrev pub hash : Bytes
hash = msg ++ replicate 4 7

abbrev pub signatures : List TransmitterSignature
signatures = signature_of alice ∷ signature_of bob ∷ []

abbrev pub accounts : List AccountMeta
accounts = record { key = program; is_signer = false; is_writable = false } ∷ []

abbrev loading : Instruction
loading = Instruction.load_operation executor call hash

abbrev signing : Instruction
signing = Instruction.sign_operation executor hash signatures

abbrev executing : Instruction
executing = Instruction.execute_operation executor hash accounts

abbrev history : List Instruction
history = loading ∷ signing ∷ executing ∷ []

abbrev pub signed_op : OpInfo
signed_op = record (loaded call) {
  status = OpStatus.signed;
  unique_signers = padded max_signers default_eth_address (alice ∷ bob ∷ []);
}

abbrev executed_op : OpInfo
executed_op = record signed_op { status = OpStatus.executed }

abbrev loaded_system : System
loaded_system = emit (proposal_loaded hash executor) (write_op hash (loaded call) initial)

abbrev signed_system : System
signed_system = emit (proposal_approved hash executor) (write_op hash signed_op loaded_system)

abbrev executed_system : System
executed_system = emit (proposal_executed hash executor) (write_op hash executed_op signed_system)

hash_of_call : op_hash_with_message env call ≡ ok hash
unfolding op_hash_with_message op_hash op_data_evm selector_evm u64_to_bytes32 u128_to_bytes32
    to_be_bytes hash_with_message
hash_of_call = refl

load_runs : load_operation env executor call hash initial ≡ ok loaded_system
unfolding load_operation init_op check_seed config_account protocol_account check_executor
    op_hash_with_message op_hash op_data_evm selector_evm u64_to_bytes32 u128_to_bytes32 to_be_bytes
    hash_with_message bytes_eq contains lookup solana_chain_id
load_runs = refl

sign_runs : sign_operation env executor hash signatures loaded_system ≡ ok (true, signed_system)
unfolding sign_operation sign_op sign_loop consensus_rate op_account check_seed protocol_account
    check_executor ecrecover derive_eth_address bytes_eq contains lookup insert transmitters active
    without store assign_from assign
sign_runs = refl

execute_runs : execute_operation env executor hash accounts signed_system ≡ ok executed_system
unfolding execute_operation op_account check_seed protocol_account check_executor build_call
    program_account call_of sighash invoke_signed bytes_eq contains lookup insert
execute_runs = refl

load_process : process env loading initial ≡ ok loaded_system
unfolding process
load_process = load_runs

sign_process : process env signing loaded_system ≡ ok signed_system
unfolding process
sign_process = ap (λ r. r >>= λ (p : Bool × System). ok p.1) sign_runs

run_ok :
    (i : Instruction) (is : List Instruction) (s t u : System)
    → process env i s ≡ ok t
    → run env t is ≡ u
    → run env s (i ∷ is) ≡ u
unfolding run
run_ok i is s t u e r = ap (λ x. run env x is) (step_ok env i s t e) ∙ r

run-history : run env initial history ≡ executed_system
unfolding run process
run-history =
    run_ok loading (signing ∷ executing ∷ []) initial loaded_system executed_system load_runs (
      run_ok signing (executing ∷ []) loaded_system signed_system executed_system sign_process
        (run_ok executing [] signed_system executed_system executed_system execute_runs refl))

final_op : lookup hash executed_system.ops ≡ some executed_op
unfolding lookup insert bytes_eq
final_op = refl

pub no_ops : AllHasSlots initial
unfolding lookup
no_ops h o e = absurd (cc e)

loaded_slots : AllHasSlots loaded_system
loaded_slots = process-AllHasSlots env loading initial loaded_system no_ops load_process

signed_slots : AllHasSlots signed_system
signed_slots = process-AllHasSlots env signing loaded_system signed_system loaded_slots sign_process

run_final : lookup hash (run env initial history).ops ≡ some executed_op
run_final = ap (λ (s : System). lookup hash s.ops) run-history ∙ final_op

run-IsApproved_example : IsApproved env initial history hash
unfolding lookup
run-IsApproved_example =
    run-IsApproved env history initial hash executed_op no_ops (λ o e. absurd (cc e)) run_final
      (omega arith)

run-signers_example :
    ((p : OpInfo) × (lookup hash initial.ops ≡ some p) × (contains (signers_of p) alice ≡ true))
    ⊎ HasSigned env hash alice history
unfolding contains active bytes_eq
run-signers_example = run-signers env history initial hash alice executed_op no_ops run_final refl

run-Progress_example :
    (o' : OpInfo) × (lookup hash (run env loaded_system (signing ∷ [])).ops ≡ some o')
    × Progress (loaded call) o'
unfolding lookup insert bytes_eq
run-Progress_example =
    run-Progress env (signing ∷ []) loaded_system hash (loaded call) loaded_slots refl

execute_operation-once_example :
    execute_operation env executor hash accounts (run env executed_system history)
    ≢ ok executed_system
execute_operation-once_example =
    execute_operation-once env executor executor hash accounts accounts history signed_system
      executed_system executed_system signed_slots execute_runs

run-AllHashed_example :
    AllHashed env (run env initial history) × AllHasSlots (run env initial history)
unfolding lookup
run-AllHashed_example = run-AllHashed env history initial no_ops (λ h o e. absurd (cc e))

pub sign_op_runs : sign_op env info hash signatures (loaded call) ≡ ok (true, signed_op, true)
unfolding sign_op sign_loop consensus_rate ecrecover derive_eth_address bytes_eq contains
    transmitters active without store assign_from assign
sign_op_runs = refl

loaded-HasSlots : HasSlots (loaded call)
unfolding lookup insert bytes_eq
loaded-HasSlots = loaded_slots hash (loaded call) refl

sign_op-effect_example :
    (0 < length (transmitters info))
    × ((IsConsensus info (signers_of (loaded call))
          × (signed_op ≡ loaded call)
          × (true ≡ true)
          × (true ≡ false))
        ⊎ ((consensus_rate (length (signers_of (loaded call))) (length (transmitters info))
              < info.consensus_target_rate)
            × Signing env info hash signatures (loaded call) signed_op true
            × (true ≡ true)))
sign_op-effect_example =
    sign_op-effect env info hash signatures (loaded call) loaded-HasSlots sign_op_runs

sign_loop_complete_example : contains (alice ∷ []) alice ≡ true
unfolding sign_loop contains ecrecover derive_eth_address bytes_eq consensus_rate
sign_loop_complete_example =
    sign_loop_complete env (alice ∷ bob ∷ []) 10000 hash (signature_of alice ∷ []) [] (alice ∷ [])
      alice refl refl (inl refl)

load_operation-effect_example :
    IsLoadable env executor call hash initial
    × ((p : ProtocolInfo) × (protocol_account call.protocol_id initial ≡ ok p)
        × (contains p.executor_slots executor ≡ true)
        × (p.protocol_address ≡ call.protocol_addr))
    × (loaded_system ≡ loaded_system)
load_operation-effect_example = load_operation-effect env executor call hash initial load_runs

load_operation_complete_example : load_operation env executor call hash initial ≡ ok loaded_system
unfolding protocol_account check_seed lookup bytes_eq contains
load_operation_complete_example =
    load_operation_complete env executor call hash initial info load_operation-effect_example.0 refl
      refl refl

load_operation-move_params_example :
    load_operation env executor (record call { params = 9 ∷ []; reserved = 9 ∷ [] }) hash initial
    ≡ ok (
        emit
          (proposal_loaded hash executor)
          (write_op hash (loaded (record call { params = 9 ∷ []; reserved = 9 ∷ [] })) initial))
load_operation-move_params_example =
    load_operation-move_params env executor call (9 ∷ []) (9 ∷ []) [] hash initial load_runs

execute_operation_ok_example : Execution env executor hash accounts signed_system executed_system
execute_operation_ok_example =
    execute_operation_ok env executor hash accounts signed_system execute_runs
