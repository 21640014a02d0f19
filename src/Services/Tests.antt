-- ===== src/Services/Tests.antt =====
-- An operation of the toy protocol on its way through the services.
use photon_solana_contracts.Prelude.{
  ℕ, ◌<◌, ◌≡◌, ◌↔◌, refl, true, false, Bytes, List, [], ◌∷◌, ◌++◌, none, some, length,
  length-append, length-replicate, length-take, replicate, drop, bytes_eq, bytes_eq_iff, contains,
  arith,
}
use photon_solana_contracts.Prelude.BigEndian.{to_be_bytes, from_be_bytes}
use photon_solana_contracts.Prelude.Assoc.{lookup}
use photon_solana_contracts.Errors.{ok}
use photon_solana_contracts.ProtocolData
use photon_solana_contracts.ProtocolData.{
  OpStatus, converted, selector_try_from, u64_to_bytes32, u128_to_bytes32, hash_with_message,
}
use photon_solana_contracts.State.{OpInfo}
use photon_solana_contracts.Gov.Protocols.{solana_chain_id}
use photon_solana_contracts.Endpoint.Accounts.{protocol_account, check_seed}
use photon_solana_contracts.Endpoint.Execute.{build_call, program_account, call_of, sighash}
use photon_solana_contracts.Endpoint.Step.{Instruction, run}
use photon_solana_contracts.Endpoint.Tests.{
  hash, signatures, accounts, signed_op, sign_op_runs, no_ops,
}
use photon_solana_contracts.Toy.{env, initial, executor, program, protocol_id, info}
use photon_solana_contracts.Toy
use photon_solana_contracts.Services.{Answer, success, failure}
use photon_solana_contracts.Services.Data.{
  OperationData, SignedOperation, chain_signature, chain_operation, chain_address, with_selector,
  op_data_evm, op_hash, op_hash_with_message,
}
use photon_solana_contracts.Services.Data.Agreement.{HasLength, chain_operation-op_data_evm}
use photon_solana_contracts.Services.Data.Wire.{reread_tx_id, deserialize_tx_id-serialize_tx_id}
use photon_solana_contracts.Services.OpRegistry.{
  ExecutorOpStatus, new, executed, failed, OpAcknowledge, OpRegistry, BlockInfo, new_registry,
  on_status, on_new_operation, on_executed_operation, on_acknowledge, change_entry, take_done,
  get_block_to_ack,
}
use photon_solana_contracts.Services.OpRegistry.Order.{waits, after_status}
use photon_solana_contracts.Services.OpRegistry.Pending.{
  RegistryEvent, acknowledged, handle_event, handle_events, is_pending, waits-is_pending,
  get_block_to_ack-is_pending,
}
use photon_solana_contracts.Services.Bundles.{Extension, Extensions, Bundle, build_ixs}
use photon_solana_contracts.Services.Bundles.Stages.{
  IsBuildable, instructions, stages, build_ixs_complete,
}
use photon_solana_contracts.Services.Bundles.Delivery.{IsDeliverable, build_ixs-delivers}
use photon_solana_contracts.Services.GovExtension.{gov_accounts}
use photon_solana_contracts.Services.GovExtension.Serving.{Serves, gov_accounts-Serves}
use photon_solana_contracts.Gov.Operation.{
  target_protocol, target_protocol_by_code, gov_operation_of, try_from_u32, find_code, code_of,
  decode_abi_params, abi_decode_scheme, token_at,
}
use photon_solana_contracts.Services.Manager
use photon_solana_contracts.Services.Manager.{
  Round, missing, stored, status_index, status_eq, no_attempts, count_attempt, is_last,
  effective_status, is_final, process_operation, on_read, send_round, get_op_status,
}
use photon_solana_contracts.Services.Manager.Repeats.{Reason, reads, process_operation-acknowledged}
use photon_solana_contracts.Services.Manager.Rounds.{attempts_limit}
use photon_solana_contracts.Services.Manager.Chain.{
  watched, run_all, status_of, process_operation-run_all,
}

-- The toy call as the services hold it.
abbrev operation : OperationData
operation = record {
  protocol_id = protocol_id;
  meta = replicate 32 0;
  src_chain_id = 1;
  src_block_number = 2;
  src_op_tx_id = [];
  nonce = 3;
  dest_chain_id = 100000000000000000000;
  protocol_addr = program;
  function_selector = 0 ∷ 4 ∷ 1 ∷ 2 ∷ 3 ∷ 4 ∷ [];
  params = 9 ∷ 9 ∷ [];
  reserved = [];
}

abbrev signed_operation : SignedOperation
signed_operation = record {
  operation_data = operation;
  signatures = signatures;
  eob_block_number = 7;
}

converts : chain_operation env operation ≡ converted Toy.call
unfolding chain_operation chain_address with_selector selector_try_from
converts = refl

has_length : HasLength operation.function_selector
has_length = refl

full_hash : (x : Bytes) → length (env.keccak256 x) ≡ 32
full_hash x =
    length-take 32 (x ++ replicate 32 0)
      (omega (arith, length-append x (replicate 32 0), length-replicate {A = ℕ} 32 0))

known_hash : op_hash_with_message env operation ≡ ok hash
unfolding op_hash_with_message op_hash op_data_evm u64_to_bytes32 u128_to_bytes32 to_be_bytes
    hash_with_message
known_hash = refl

chain_operation-op_data_evm_example :
    (ProtocolData.op_data_evm Toy.call ≡ ok (op_data_evm operation))
    ↔ HasLength operation.function_selector
chain_operation-op_data_evm_example = chain_operation-op_data_evm env operation converts

abbrev tx_id : Bytes
tx_id = replicate 64 3

deserialize_tx_id-serialize_tx_id_example : (reread_tx_id tx_id ≡ some tx_id) ↔ (length tx_id ≡ 64)
deserialize_tx_id-serialize_tx_id_example = deserialize_tx_id-serialize_tx_id tx_id

-- Two operations of two blocks; the one of the first block is executed.
abbrev other_hash : Bytes
other_hash = replicate 32 9

abbrev events : List RegistryEvent
events =
    acknowledged 1 (record { block_number = 7; op_hash = hash; status = new })
    ∷ acknowledged 2 (record { block_number = 8; op_hash = other_hash; status = new })
    ∷ acknowledged 3 (record { block_number = 7; op_hash = hash; status = executed })
    ∷ []

waits-is_pending_example :
    waits 8 other_hash (handle_events events (new_registry 10)).known_ops
    ≡ is_pending 8 other_hash false events
waits-is_pending_example = waits-is_pending 10 8 other_hash events

answers : (get_block_to_ack 20 (handle_events events (new_registry 10))).0 ≡ some 7
unfolding get_block_to_ack handle_events handle_event new_registry on_acknowledge change_entry
    on_status on_new_operation on_executed_operation take_done contains bytes_eq
    photon_solana_contracts.Slots.without
answers = refl

still_pending : is_pending 8 other_hash false events ≡ true
unfolding is_pending bytes_eq after_status
still_pending = refl

get_block_to_ack-is_pending_example : 7 < 8
get_block_to_ack-is_pending_example =
    get_block_to_ack-is_pending 10 20 7 8 other_hash events answers still_pending

-- An extension that knows the program.
abbrev extension : Extension
extension = record {
  get_accounts = λ selector params. success accounts;
  get_compute_budget = λ selector params. none;
}

abbrev extensions : Extensions
extensions = (protocol_id, extension) ∷ []

buildable : IsBuildable env extensions operation Toy.call accounts
unfolding lookup bytes_eq
buildable = record {
  extension = extension;
  found = refl;
  long = omega arith;
  listed = refl;
  readable = refl;
  converts = converts;
}

build_ixs_complete_example :
    (bundles : List Bundle) × (build_ixs env extensions executor hash signed_operation new
      ≡ success bundles)
    × (instructions bundles
        ≡ drop (status_index new) (stages executor hash signed_operation Toy.call accounts))
unfolding status_index
build_ixs_complete_example =
    build_ixs_complete env extensions executor hash signed_operation Toy.call accounts new buildable
      (omega arith)

deliverable : IsDeliverable env executor hash Toy.call signatures accounts initial
unfolding lookup bytes_eq contains protocol_account check_seed build_call program_account call_of
    sighash solana_chain_id
deliverable = record {
  fresh = refl;
  configured = λ e. cc e;
  for_this_chain = refl;
  id_length = refl;
  id_nonzero = λ e. ground (arith, e, bytes_eq_iff protocol_id (replicate 32 0));
  info = info;
  found = refl;
  listed = refl;
  addressed = refl;
  op = signed_op;
  signs = sign_op_runs;
  foreign = refl;
  call = _;
  built = refl;
  accepted = refl;
}

build_ixs-delivers_example :
    (bundles : List Bundle) × (o : OpInfo) × (build_ixs env extensions executor hash
        signed_operation new
      ≡ success bundles)
    × (lookup hash (run env initial (instructions bundles)).ops ≡ some o)
    × (o.status ≡ OpStatus.executed)
unfolding chain_signature
build_ixs-delivers_example =
    build_ixs-delivers env executor hash extensions signed_operation Toy.call accounts initial
      full_hash has_length known_hash buildable deliverable

-- Six reads before anything was sent are too many for an executor with two attempts.
abbrev histories : List (List Instruction)
histories = replicate 7 []

process_operation-run_all_example :
    (a : OpAcknowledge) × (process_operation 2
        (build_ixs env extensions executor hash signed_operation)
        7
        hash
        no_attempts
        (watched env hash initial histories)
      ≡ Manager.acknowledged a)
    × (a.status ≡ executed
        → status_of (lookup hash (run_all env hash initial histories).ops) ≡ executed)
unfolding attempts_limit
process_operation-run_all_example =
    process_operation-run_all env hash extensions executor signed_operation Toy.call accounts 2
      initial histories buildable no_ops (omega arith)

-- Two more reads of a loaded operation, with two attempts.
abbrev rounds : List Round
rounds =
    replicate 3 (record { is_funded = true; account = stored OpStatus.init; sent = success tt })

abbrev given_up : OpAcknowledge
given_up = record { block_number = 7; op_hash = hash; status = failed }

gives_up :
    process_operation 2 (λ status. success tt) 7 hash no_attempts rounds
    ≡ Manager.acknowledged given_up
unfolding process_operation on_read send_round get_op_status
    photon_solana_contracts.Services.OpRegistry.executor_status effective_status count_attempt
    is_last status_eq status_index is_final
gives_up = refl

process_operation-acknowledged_example :
    (given_up.block_number ≡ 7)
    × (given_up.op_hash ≡ hash)
    × Reason 2 (λ st. reads st rounds) failed
process_operation-acknowledged_example =
    process_operation-acknowledged 2 (λ status. success tt) 7 hash rounds gives_up

-- The code of `add_executor`, for the parameters of the toy codec.
abbrev gov_selector : Bytes
gov_selector = to_be_bytes 4 0xe0aafb68

-- An operation of the governance protocol on the endpoint.
abbrev gov_call : ProtocolData.OperationData
gov_call = record Toy.call {
  protocol_id = ProtocolData.gov_protocol_id;
  protocol_addr = env.photon_id;
  function_selector = ProtocolData.by_code gov_selector;
}

gov_accounts-Serves_example :
    Serves env
      (replicate 32 0)
      executor
      hash
      gov_call
      gov_selector
      (target_protocol env (ProtocolData.by_code gov_selector) gov_call.params)
      (gov_accounts env (replicate 32 0) gov_selector gov_call.params)
unfolding bytes_eq
gov_accounts-Serves_example =
    gov_accounts-Serves env (replicate 32 0) executor hash gov_call gov_selector refl refl
      (λ seeds. refl) refl refl

-- The target is found, so the call is served.
gov_target_found :
    target_protocol env (ProtocolData.by_code gov_selector) gov_call.params ≡ ok protocol_id
unfolding target_protocol target_protocol_by_code gov_operation_of try_from_u32 find_code code_of
    abi_decode_scheme to_be_bytes from_be_bytes decode_abi_params token_at
gov_target_found = refl
