-- ===== src/Services/Bundles/Delivery.antt =====
-- The built instructions, run by the program.
use photon_solana_contracts.Prelude.{
  ◌≤◌, ◌≡◌, ◌≢◌, refl, ap, ◌∙◌, subst, inl, inr, Bool, true, false, Bytes, List, [], ◌∷◌, none,
  some, length, length-take-le, ltb, if-elim, replicate, map, contains, bytes_eq, arith,
}
use photon_solana_contracts.Prelude.Assoc.{lookup, lookup-insert_self}
use photon_solana_contracts.Errors.{ok, ◌>>=◌, >>=-elim, ok-injective}
use photon_solana_contracts.Environment.{Environment, AccountMeta, CpiInstruction}
use photon_solana_contracts.ProtocolData
use photon_solana_contracts.ProtocolData.{
  Pubkey, OpStatus, TransmitterSignature, converted, default_eth_address, hash_with_message,
}
use photon_solana_contracts.State.{
  System, OpInfo, ProtocolInfo, emit, proposal_loaded, proposal_approved, proposal_executed,
  max_signers,
}
use photon_solana_contracts.Endpoint.Accounts.{
  check_seed, op_account, protocol_account, check_executor, write_op,
}
use photon_solana_contracts.Endpoint.Step.{Instruction, process, step, run}
use photon_solana_contracts.Endpoint.Load.Effects.{IsLoadable, load_operation_complete}
use photon_solana_contracts.Endpoint.Load.Effects
use photon_solana_contracts.Endpoint.Sign
use photon_solana_contracts.Endpoint.Execute
use photon_solana_contracts.Endpoint.Sign.Consensus.{HasSlots, sign_op-effect}
use photon_solana_contracts.Gov.Protocols.{solana_chain_id}
use photon_solana_contracts.Services.{success}
use photon_solana_contracts.Services.Data.{
  OperationData, SignedOperation, chain_signature, op_hash, op_hash_with_message,
}
use photon_solana_contracts.Services.Data.Agreement.{HasLength, chain_operation-op_hash}
use photon_solana_contracts.Services.OpRegistry.{new}
use photon_solana_contracts.Services.Manager.{status_index}
use photon_solana_contracts.Services.Bundles.{Extensions, Bundle, build_ixs}
use photon_solana_contracts.Services.Bundles.Stages.{IsBuildable, instructions, build_ixs_complete}
use photon_solana_contracts.Slots.Packed.{IsPacked-padded}

-- What has to hold of the accounts, the signatures and the called program.
pub record IsDeliverable (env : Environment) (executor : Pubkey) (h : Bytes)
    (c : ProtocolData.OperationData) (sigs : List TransmitterSignature)
    (accounts : List AccountMeta) (s : System) : Type 0 where
  pub fresh : lookup h s.ops ≡ none
  pub configured : s.config ≢ none
  pub for_this_chain : c.dest_chain_id ≡ solana_chain_id env.network
  pub id_length : length c.protocol_id ≡ 32
  pub id_nonzero : c.protocol_id ≢ replicate 32 0
  pub info : ProtocolInfo
  pub found : protocol_account c.protocol_id s ≡ ok info
  pub listed : contains info.executor_slots executor ≡ true
  pub addressed : info.protocol_address ≡ c.protocol_addr
  pub op : OpInfo
  pub signs : Sign.sign_op env info h sigs (Effects.loaded c) ≡ ok (true, op, true)
  pub foreign : bytes_eq c.protocol_addr env.photon_id ≡ false
  pub call : CpiInstruction
  pub built : Execute.build_call env executor h c accounts ≡ ok call
  pub accepted : env.invoke call ≡ none

module _ (env : Environment) (executor : Pubkey) (h : Bytes) where
  op_account-write_op :
      (o : OpInfo) (s : System) → length h ≤ 32 → op_account h (write_op h o s) ≡ ok o
  unfolding op_account check_seed
  op_account-write_op o s short = ground (arith, lookup-insert_self h o s.ops)

  sign_loaded :
      (info : ProtocolInfo) (sigs : List TransmitterSignature) (o o' : OpInfo) (s : System)
      → op_account h s ≡ ok o
      → protocol_account o.op_data.protocol_id s ≡ ok info
      → contains info.executor_slots executor ≡ true
      → o.status ≡ OpStatus.init
      → Sign.sign_op env info h sigs o ≡ ok (true, o', true)
      → Sign.sign_operation env executor h sigs s
        ≡ ok (true, emit (proposal_approved h executor) (write_op h o' s))
  unfolding Sign.sign_operation check_executor
  sign_loaded info sigs o o' s at found listed state signs =
      rw (at, found, listed, signs, state) refl

  -- A loaded operation that its signatures approve keeps its data and becomes signed.
  approved :
      (info : ProtocolInfo) (c : ProtocolData.OperationData) (sigs : List TransmitterSignature)
      (o : OpInfo)
      → Sign.sign_op env info h sigs (Effects.loaded c) ≡ ok (true, o, true)
      → (o.status ≡ OpStatus.signed) × (o.op_data ≡ c)
  approved info c sigs o signs =
      let packed : HasSlots (Effects.loaded c) =
        IsPacked-padded max_signers default_eth_address [] tt tt (omega arith) in
      elim (sign_op-effect env info h sigs (Effects.loaded c) packed signs).1 [
        | inl (_, _, _, not_now) ↦ absurd (cc not_now)
        | inr (_, signing, _) ↦ (signing.new_status, signing.same_data)
      ]

  execute_signed :
      (info : ProtocolInfo) (accounts : List AccountMeta) (o : OpInfo) (call : CpiInstruction)
      (s : System)
      → op_account h s ≡ ok o
      → protocol_account o.op_data.protocol_id s ≡ ok info
      → contains info.executor_slots executor ≡ true
      → o.status ≡ OpStatus.signed
      → Execute.build_call env executor h o.op_data accounts ≡ ok call
      → bytes_eq o.op_data.protocol_addr env.photon_id ≡ false
      → env.invoke call ≡ none
      → Execute.execute_operation env executor h accounts s
        ≡ ok (
            emit
              (proposal_executed h executor)
              (write_op h (record o { status = OpStatus.executed }) s))
  unfolding Execute.execute_operation check_executor Execute.invoke_signed
  execute_signed info accounts o call s at found listed state built foreign accepted =
      rw (at, found, listed, built, foreign, accepted, state) refl

  step_ok : (s t : System) (i : Instruction) → process env i s ≡ ok t → step env s i ≡ t
  unfolding step
  step_ok s t i e = ground (arith, e)

  run_three :
      (c : ProtocolData.OperationData) (sigs : List TransmitterSignature)
      (accounts : List AccountMeta) (s : System)
      (d : IsDeliverable env executor h c sigs accounts s)
      → length h ≤ 32
      → ProtocolData.op_hash_with_message env c ≡ ok h
      → lookup h
          (run env s (
            Instruction.load_operation executor c h
            ∷ Instruction.sign_operation executor h sigs
            ∷ Instruction.execute_operation executor h accounts
            ∷ [])).ops
        ≡ some (record d.op { status = OpStatus.executed })
  unfolding run process protocol_account op_account
  run_three c sigs accounts s d seed hashed =
      let loadable : IsLoadable env executor c h s = record {
        fresh = d.fresh;
        seed = seed;
        configured = d.configured;
        hashed = hashed;
        for_this_chain = d.for_this_chain;
        id_length = d.id_length;
        id_nonzero = d.id_nonzero;
      } in
      let t = emit (proposal_loaded h executor) (write_op h (Effects.loaded c) s) in
      let u = emit (proposal_approved h executor) (write_op h d.op t) in
      let v =
        emit (proposal_executed h executor)
          (write_op h (record d.op { status = OpStatus.executed }) u) in
      let (signed_now, same) = approved d.info c sigs d.op d.signs in
      let first : step env s (Instruction.load_operation executor c h) ≡ t =
        step_ok s t _ (
          load_operation_complete env executor c h s d.info loadable d.found d.listed
            d.addressed) in
      let second : step env t (Instruction.sign_operation executor h sigs) ≡ u = step_ok t u _ (
        ap (λ r. r >>= λ (x : Bool × System). ok x.1)
          (sign_loaded d.info sigs (Effects.loaded c) d.op t
            (op_account-write_op (Effects.loaded c) s seed) d.found d.listed refl d.signs)) in
      let third : step env u (Instruction.execute_operation executor h accounts) ≡ v =
        step_ok u v _ (
          execute_signed d.info accounts d.op d.call u (op_account-write_op d.op t seed)
            (ap (λ (x : ProtocolData.OperationData). protocol_account x.protocol_id s) same
              ∙ d.found)
            d.listed signed_now
            (ap (λ x. Execute.build_call env executor h x accounts) same ∙ d.built)
            (ap (λ (x : ProtocolData.OperationData). bytes_eq x.protocol_addr env.photon_id) same
              ∙ d.foreign)
            d.accepted) in
      rw (first, second, third)
        (lookup-insert_self h (record d.op { status = OpStatus.executed }) u.ops)

  hash_short : (d : OperationData) → op_hash_with_message env d ≡ ok h → length h ≤ 32
  unfolding op_hash_with_message
  hash_short d e = >>=-elim (hash_with_message env (op_hash env d)) _ e λ hash _ e1.
      if-elim (ltb (length hash) 32) e1 (λ _ failing. absurd (cc failing))
        (λ _ taken. subst (λ x. length x ≤ 32) (ok-injective taken) (length-take-le 32 hash))

  -- Let the hash function give 32 bytes, and let a new operation, whose selector's second byte is the length of the rest modulo
  -- 256, be known to the services under the hash `h`. Let it be convertible, and some
  -- extension list the accounts of its call. Let the program's accounts admit it, its signatures reach
  -- consensus, and the called program, which is not the endpoint, accept the call. Then
  -- the bundles are built, and running their instructions one after another executes the operation.
  pub build_ixs-delivers :
      (extensions : Extensions) (op : SignedOperation) (c : ProtocolData.OperationData)
      (accounts : List AccountMeta) (s : System)
      → ((x : Bytes) → length (env.keccak256 x) ≡ 32)
      → HasLength op.operation_data.function_selector
      → op_hash_with_message env op.operation_data ≡ ok h
      → IsBuildable env extensions op.operation_data c accounts
      → IsDeliverable env executor h c (map chain_signature op.signatures) accounts s
      → (bundles : List Bundle) × (o : OpInfo) × (build_ixs env extensions executor h op new
          ≡ success bundles)
        × (lookup h (run env s (instructions bundles)).ops ≡ some o)
        × (o.status ≡ OpStatus.executed)
  unfolding status_index
  build_ixs-delivers extensions op c accounts s sized right hashed b d =
      let (bundles, built, are) =
        build_ixs_complete env extensions executor h op c accounts new b (omega arith) in
      let ends =
        run_three c (map chain_signature op.signatures) accounts s d
          (hash_short op.operation_data hashed)
          (chain_operation-op_hash env op.operation_data sized right b.converts ∙ hashed) in
      (
        bundles,
        record d.op { status = OpStatus.executed },
        built,
        ap (λ is. lookup h (run env s is).ops) are ∙ ends,
        refl,
      )
