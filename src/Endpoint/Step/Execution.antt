-- ===== src/Endpoint/Step/Execution.antt =====
-- The three stages of an operation in a row, with enough signatures and a protocol that accepts the
-- call: the operation gets executed.
use photon_solana_contracts.Prelude.{
  ◌≤◌, ◌<◌, ◌≡◌, ◌≢◌, refl, ap, ◌∙◌, true, Bytes, List, [], ◌∷◌, ◌++◌, length, contains, All, arith,
  bytes_eq, bytes_eq_iff, bytes_eq_ne, filter_b, not, none, some,
}
use photon_solana_contracts.Prelude.Assoc.{lookup, lookup-insert_self}
use photon_solana_contracts.Errors.{ok}
use photon_solana_contracts.Environment.{Environment, AccountMeta, CpiInstruction}
use photon_solana_contracts.Slots.Laws.{AreDistinct}
use photon_solana_contracts.ProtocolData.{
  Pubkey, EthAddress, TransmitterSignature, OperationData, FunctionSelector, by_code, by_name,
  dummy, OpStatus,
}
use photon_solana_contracts.State.{
  System, OpInfo, ProtocolInfo, transmitters, max_signers, emit, proposal_loaded, proposal_approved,
  proposal_executed,
}
use photon_solana_contracts.Endpoint.Accounts.{
  check_seed, op_account, protocol_account, check_executor, write_op,
}
use photon_solana_contracts.Endpoint.Load.Effects.{IsLoadable, loaded, load_operation_complete}
use photon_solana_contracts.Endpoint.Sign.{consensus_rate, sign_op, sign_operation}
use photon_solana_contracts.Endpoint.Sign.Reach.{RecoverTo, signed_by, sign_op_reaches}
use photon_solana_contracts.Endpoint.Execute.{
  program_account, call_of, build_call, call_accounts, sighash, global, receive_photon_msg_name,
  invoke_signed, execute_operation,
}
use photon_solana_contracts.Endpoint.Execute.Effects.{build_call_ok}
use photon_solana_contracts.Endpoint.Step.{Instruction, process, step, run}

module _ (env : Environment) where
  pub step_ok : (i : Instruction) (s t : System) → process env i s ≡ ok t → step env s i ≡ t
  unfolding step
  step_ok i s t e = ground arith

  three_steps :
      (i j k : Instruction) (s t u v : System)
      → process env i s ≡ ok t
      → process env j t ≡ ok u
      → process env k u ≡ ok v
      → run env s (i ∷ j ∷ k ∷ []) ≡ v
  unfolding run
  three_steps i j k s t u v first second third =
      ap (λ y. step env (step env y j) k) (step_ok i s t first)
      ∙ ap (λ y. step env y k) (step_ok j t u second)
      ∙ step_ok k u v third

module _ (env : Environment) (x : Pubkey) (d : OperationData) (h : Bytes)
    (info : ProtocolInfo) where
  call_of_ok :
      (f : FunctionSelector)
      → d.function_selector ≡ f
      → f ≢ dummy
      → (r : Bytes × Bytes) × (call_of env d h ≡ ok r)
  unfolding call_of
  call_of_ok (by_code code) same no_dummy =
      ((receive_photon_msg_name, env.borsh (h ∷ code ∷ d.params ∷ [])), rw same refl)
  call_of_ok (by_name name) same no_dummy = ((name, env.borsh (d.params ∷ [])), rw same refl)
  call_of_ok dummy same no_dummy = absurd (no_dummy refl)

  program_found :
      (program : AccountMeta) (rest : List AccountMeta)
      → program.key ≡ d.protocol_addr
      → program_account d.protocol_addr (program ∷ rest) ≡ ok program
  unfolding program_account
  program_found program rest same = rw ((bytes_eq_iff program.key d.protocol_addr).1 same) refl

  build_call_complete :
      (program : AccountMeta) (rest : List AccountMeta)
      → program.key ≡ d.protocol_addr
      → d.function_selector ≢ dummy
      → (ix : CpiInstruction) × (build_call env x h d (program ∷ rest) ≡ ok ix)
  unfolding build_call
  build_call_complete program rest same no_dummy =
      let (call, called) = call_of_ok d.function_selector refl no_dummy in
      (
        record {
          program_id = d.protocol_addr;
          metas =
              filter_b (λ a. not (bytes_eq a.key d.protocol_addr))
                (call_accounts env x h d program (program ∷ rest));
          ix_data = sighash env global call.0 ++ call.1;
        },
        rw (program_found program rest same, called) refl,
      )

  -- The states between the stages.
  abbrev after_load : System → System
  after_load s = emit (proposal_loaded h x) (write_op h (loaded d) s)

  abbrev after_sign : System → List EthAddress → System
  after_sign s out = emit (proposal_approved h x) (write_op h (signed_by d out) (after_load s))

  abbrev after_execute : System → List EthAddress → System
  after_execute s out =
      emit (proposal_executed h x)
        (write_op h (record (signed_by d out) { status = OpStatus.executed }) (after_sign s out))

  op_stored :
      (t : System) (op : OpInfo) → length h ≤ 32 → lookup h t.ops ≡ some op → op_account h t ≡ ok op
  unfolding op_account check_seed
  op_stored t op short at = ground arith

  -- The protocols stay as they are.
  protocol_stays :
      (s t : System)
      → t.protocols ≡ s.protocols
      → protocol_account d.protocol_id s ≡ ok info
      → protocol_account d.protocol_id t ≡ ok info
  unfolding protocol_account
  protocol_stays s t same found = rw same found

  sign_complete :
      (s : System) (sigs : List TransmitterSignature) (out : List EthAddress)
      → length h ≤ 32
      → protocol_account d.protocol_id s ≡ ok info
      → contains info.executor_slots x ≡ true
      → sign_op env info h sigs (loaded d) ≡ ok (true, signed_by d out, true)
      → process env (Instruction.sign_operation x h sigs) (after_load s) ≡ ok (after_sign s out)
  unfolding process sign_operation check_executor
  sign_complete s sigs out short found listed signed =
      rw
        (
          op_stored (after_load s) (loaded d) short (lookup-insert_self h (loaded d) s.ops),
          protocol_stays s (after_load s) refl found,
          listed,
          signed,
        )
        refl

  execute_complete :
      (s : System) (out : List EthAddress) (accounts : List AccountMeta) (ix : CpiInstruction)
      → length h ≤ 32
      → protocol_account d.protocol_id s ≡ ok info
      → contains info.executor_slots x ≡ true
      → build_call env x h d accounts ≡ ok ix
      → d.protocol_addr ≢ env.photon_id
      → env.invoke ix ≡ none
      → process env (Instruction.execute_operation x h accounts) (after_sign s out)
        ≡ ok (after_execute s out)
  unfolding process execute_operation check_executor invoke_signed
  execute_complete s out accounts ix short found listed built away accepted =
      rw
        (
          op_stored (after_sign s out) (signed_by d out) short
              (lookup-insert_self h (signed_by d out) (after_load s).ops),
          protocol_stays s (after_sign s out) refl found,
          listed,
          built,
          bytes_eq_ne d.protocol_addr env.photon_id away,
          accepted,
        )
        refl

  -- Let an operation be loadable, and its protocol list the executor, have the operation's address
  -- and a target rate above zero; let it have a transmitter. Let signatures over the operation's
  -- hash recover to allowed transmitters, none twice and sixteen at most, that reach the target.
  -- Let the address be another program's, passed as the first account, let the selector not be
  -- the dummy one, and let that program accept the call. Then the load, the signing and the
  -- execution, one after the other, leave the operation stored with its data and executed.
  pub run-executes :
      (s : System) (sigs : List TransmitterSignature) (ts : List EthAddress) (program : AccountMeta)
      (rest : List AccountMeta)
      → IsLoadable env x d h s
      → protocol_account d.protocol_id s ≡ ok info
      → contains info.executor_slots x ≡ true
      → info.protocol_address ≡ d.protocol_addr
      → 0 < length (transmitters info)
      → 0 < info.consensus_target_rate
      → RecoverTo env (transmitters info) info.consensus_target_rate h sigs ts
      → All (λ t. contains (transmitters info) t ≡ true) ts
      → AreDistinct ts
      → length ts ≤ max_signers
      → info.consensus_target_rate ≤ consensus_rate (length ts) (length (transmitters info))
      → program.key ≡ d.protocol_addr
      → d.protocol_addr ≢ env.photon_id
      → d.function_selector ≢ dummy
      → ((ix : CpiInstruction) → ix.program_id ≡ d.protocol_addr → env.invoke ix ≡ none)
      → (op : OpInfo) × (lookup h
            (run env s (
              Instruction.load_operation x d h
              ∷ Instruction.sign_operation x h sigs
              ∷ Instruction.execute_operation x h (program ∷ rest)
              ∷ [])).ops
          ≡ some op)
        × (op.op_data ≡ d)
        × (op.status ≡ OpStatus.executed)
  unfolding process
  run-executes s sigs ts program rest can found listed addr pos target_pos r allowed dist fits
        enough first away no_dummy accepts =
      let (out, signed) =
        sign_op_reaches env d h info sigs ts r allowed dist fits pos target_pos enough in
      let (ix, built) = build_call_complete program rest first no_dummy in
      let ran =
        three_steps env (Instruction.load_operation x d h) (Instruction.sign_operation x h sigs)
          (Instruction.execute_operation x h (program ∷ rest)) s (after_load s) (after_sign s out)
          (after_execute s out) (load_operation_complete env x d h s info can found listed addr)
          (sign_complete s sigs out can.seed found listed signed)
          (execute_complete s out (program ∷ rest) ix can.seed found listed built away
            (accepts ix (build_call_ok env x h d (program ∷ rest) built).1)) in
      (
        record (signed_by d out) { status = OpStatus.executed },
        ap (λ (t : System). lookup h t.ops) ran
            ∙ lookup-insert_self h (record (signed_by d out) { status = OpStatus.executed })
                (after_sign s out).ops,
        refl,
        refl,
      )
