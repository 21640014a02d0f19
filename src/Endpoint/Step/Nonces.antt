-- ===== src/Endpoint/Step/Nonces.antt =====
-- The nonces of the proposals over a history of transactions.
pub mod Counting
use photon_solana_contracts.Prelude.{
  ℕ, ◌+◌, ◌≡◌, refl, sym, ap, ◌∙◌, subst, Bool, true, false, Bytes, List, [], ◌∷◌, ◌++◌,
  append_assoc, append-nil, Option, none, some, contains, bytes_eq, arith, if◌then◌else◌,
}
use photon_solana_contracts.Errors.{
  Result, ok, err, ok_or, custom, anchor, constraint_address, proposer_is_not_allowed, require,
  invalid_method_selector, >>=-elim, ok-injective,
}
use photon_solana_contracts.Environment.{Environment, AccountMeta, CpiInstruction}
use photon_solana_contracts.ProtocolData.{
  Pubkey, TransmitterSignature, OperationData, FunctionSelector, to_bytes,
}
use photon_solana_contracts.State.{
  System, OpInfo, Config, ProtocolInfo, Event, ProposeEvent, proposal_loaded, proposal_approved,
  proposal_executed, emit,
}
use photon_solana_contracts.Gov.Operation.{GovOperation, gov_operation_of}
use photon_solana_contracts.Gov.Protocols.{
  next_nonce, propose_handle_add_allowed_protocol, add_allowed_protocol,
  remove_allowed_protocol_address,
}
use photon_solana_contracts.Gov.Dispatch.{
  GovResult, info_only, run_gov_operation, handle_gov_operation,
}
use photon_solana_contracts.Endpoint.Accounts.{
  config_or_init, protocol_or_init, config_account, protocol_account, write_config, write_protocol,
  write_op,
}
use photon_solana_contracts.Endpoint.Receive.{emit_propose}
use photon_solana_contracts.Endpoint.Receive.Effects.{GovCall, receive_photon_msg_ok}
use photon_solana_contracts.Endpoint.Execute.Effects.{Called, execute_operation_ok}
use photon_solana_contracts.Endpoint.Load.Effects.{load_operation-effect}
use photon_solana_contracts.Endpoint.Sign.Checks.{sign_operation_ok}
use photon_solana_contracts.Endpoint.Setup
use photon_solana_contracts.Endpoint.Load
use photon_solana_contracts.Endpoint.Sign
use photon_solana_contracts.Endpoint.Execute
use photon_solana_contracts.Endpoint.Proposal
use photon_solana_contracts.Endpoint.Step.Moves.{Result-elim}
use photon_solana_contracts.Endpoint.Step.{Instruction, process, step, run}
use photon_solana_contracts.Endpoint.Step.Nonces.Counting.{
  nonces, IsNumbered, nonce_of, Numbered, IsNumbered-append, nonces-append, Numbered-refl,
  Numbered-trans, Counts, info_only-Counts,
}

module _ (env : Environment) where
  add_allowed_protocol_counts :
      (calldata : Bytes) (info : ProtocolInfo) (config : Config)
      {r : ProtocolInfo × Config × ProposeEvent}
      → add_allowed_protocol env calldata info config ≡ ok r
      → (r.2.nonce ≡ config.nonce) × (r.1.nonce ≡ config.nonce + 1)
  unfolding add_allowed_protocol propose_handle_add_allowed_protocol next_nonce
  add_allowed_protocol_counts calldata info config e = ground arith

  run_gov_operation-Counts :
      (g : GovOperation) (config : Config) (info : ProtocolInfo) (op : OperationData)
      {r : GovResult}
      → run_gov_operation env g config info op ≡ ok r
      → Counts config.nonce r.1.nonce r.2
  unfolding run_gov_operation
  run_gov_operation-Counts GovOperation.add_allowed_protocol config info op e =
      >>=-elim (add_allowed_protocol env op.params info config) _ e λ x added done.
        subst (λ (r : GovResult). Counts config.nonce r.1.nonce r.2) (ok-injective done)
          (add_allowed_protocol_counts op.params info config added)
  run_gov_operation-Counts GovOperation.remove_allowed_protocol_address config info op e =
      info_only-Counts config (ok (remove_allowed_protocol_address info)) e
  run_gov_operation-Counts _ config info op e = info_only-Counts config _ e

  handle_gov_operation-Counts :
      (config : Config) (info : ProtocolInfo) (code : Bytes) (op : OperationData) {r : GovResult}
      → handle_gov_operation env config info code op ≡ ok r
      → Counts config.nonce r.1.nonce r.2
  unfolding handle_gov_operation
  handle_gov_operation-Counts config info code op e =
      >>=-elim (ok_or (gov_operation_of code) (custom invalid_method_selector)) _ e
        λ g _ handled. run_gov_operation-Counts g config info op handled

  emit_propose-Numbered :
      (s u : System) (event : Option ProposeEvent)
      → u.events ≡ s.events
      → Counts (nonce_of s) (nonce_of u) event
      → Numbered s (emit_propose event u)
  unfolding nonces
  emit_propose-Numbered s u none same counts = ([], same ∙ sym (append-nil s.events), counts)
  emit_propose-Numbered s u (some e) same counts =
      (Event.propose e ∷ [], ap (λ l. l ++ Event.propose e ∷ []) same, (counts.0, counts.1))

  GovCall-Numbered :
      (executor : Pubkey) (h code : Bytes) (s : System) {t : System}
      → GovCall env executor h code s t
      → Numbered s t
  GovCall-Numbered executor h code s {t} g = subst (Numbered s) (sym g.result) (
      emit_propose-Numbered s (write_config g.config (write_protocol g.target g.info s)) g.event
        refl
        (handle_gov_operation-Counts (config_or_init s) (protocol_or_init g.target s) code
          g.op.op_data g.handled))

  -- An event that is no proposal, and no change of the nonce.
  quiet :
      (s t : System) (new_events : List Event)
      → t.events ≡ s.events ++ new_events
      → nonces new_events ≡ []
      → nonce_of t ≡ nonce_of s
      → Numbered s t
  quiet s t new_events appended none_new same =
      (new_events, appended, subst (IsNumbered (nonce_of s) (nonce_of t)) (sym none_new) same)

  Called-Numbered :
      (x h : Bytes) (d : OperationData) (ix : CpiInstruction) (s : System) {t : System}
      → Called env x h d ix s t
      → Numbered s t
  Called-Numbered x h d ix s (Called.endpoint code _ _ g) = GovCall-Numbered x h code s g
  Called-Numbered x h d ix s (Called.other _ _) = Numbered-refl s

  execute-Numbered :
      (x : Pubkey) (h : Bytes) (rest : List AccountMeta) (s t : System)
      → Execute.execute_operation env x h rest s ≡ ok t
      → Numbered s t
  unfolding nonces
  execute-Numbered x h rest s t e =
      let ex = execute_operation_ok env x h rest s e in
      Numbered-trans s ex.after_call t (Called-Numbered x h ex.op.op_data ex.ix s ex.called) (
        quiet ex.after_call t (proposal_executed h x ∷ []) (ap (λ (u : System). u.events) ex.result)
          refl (ap nonce_of ex.result))

  load-Numbered :
      (x : Pubkey) (d : OperationData) (h : Bytes) (s t : System)
      → Load.load_operation env x d h s ≡ ok t
      → Numbered s t
  unfolding nonces
  load-Numbered x d h s t e =
      let (_, _, done) = load_operation-effect env x d h s e in
      quiet s t (proposal_loaded h x ∷ []) (ap (λ (u : System). u.events) done) refl
        (ap nonce_of done)

  approved-Numbered :
      (x h : Bytes) (op : OpInfo) (approved : Bool) (s : System)
      → Numbered s
          (if approved then emit (proposal_approved h x) (write_op h op s) else write_op h op s)
  unfolding nonces
  approved-Numbered x h op true s =
      quiet s (emit (proposal_approved h x) (write_op h op s)) (proposal_approved h x ∷ []) refl
        refl refl
  approved-Numbered x h op false s =
      quiet s (write_op h op s) [] (sym (append-nil s.events)) refl refl

  sign-Numbered :
      (x : Pubkey) (h : Bytes) (sigs : List TransmitterSignature) (s t : System) {answer : Bool}
      → Sign.sign_operation env x h sigs s ≡ ok (answer, t)
      → Numbered s t
  sign-Numbered x h sigs s t e =
      let (op, info, op', approved, _, _, _, _, _, done) = sign_operation_ok env x h sigs s e in
      subst (Numbered s) (sym done) (approved-Numbered x h op' approved s)

  config_known :
      (s : System) {config : Config} → config_account s ≡ ok config → nonce_of s ≡ config.nonce
  unfolding config_account
  config_known s e = ground arith

  next_nonce_ok : (n : ℕ) {m : ℕ} → next_nonce n ≡ ok m → m ≡ n + 1
  unfolding next_nonce
  next_nonce_ok n e = ground arith

  propose-Numbered :
      (x p : Bytes) (c : ℕ) (a : Bytes) (f : FunctionSelector) (ps : Bytes) (s t : System)
      → Proposal.propose x p c a f ps s ≡ ok t
      → Numbered s t
  unfolding Proposal.propose nonces next_nonce config_account
  propose-Numbered x p c a f ps s t e = >>=-elim (config_account s) _ e λ config found e1.
      >>=-elim (protocol_account p s) _ e1 λ info _ e2.
        >>=-elim (require (contains info.proposer_slots x) (custom proposer_is_not_allowed)) _ e2
          λ _ _ e3. >>=-elim (next_nonce config.nonce) _ e3 λ bumped next e4.
            >>=-elim (to_bytes f) _ e4 λ selector _ done.
              let event : ProposeEvent = record {
                protocol_id = p;
                nonce = config.nonce;
                dst_chain_id = c;
                protocol_address = a;
                function_selector = selector;
                params = ps;
              } in
              let before = config_known s found in
              subst (Numbered s) (ok-injective done) (
                Event.propose event ∷ [],
                refl,
                (sym before, next_nonce_ok config.nonce next ∙ ap (λ n. n + 1) (sym before)),
              )

  unchanged : (s t : System) → t.events ≡ s.events → nonce_of t ≡ nonce_of s → Numbered s t
  unfolding nonces
  unchanged s t same nonce = quiet s t [] (same ∙ sym (append-nil s.events)) refl nonce

  initialize-Numbered :
      (a : Pubkey) (c : ℕ) (m : Bytes) (r : ℕ) (ts es : List Bytes) (s t : System)
      → Setup.initialize env a c m r ts es s ≡ ok t
      → Numbered s t
  unfolding Setup.initialize
  initialize-Numbered a c m r ts es s t e = unchanged s t (ground arith) (ground arith)

  set_admin-Numbered :
      (a b : Pubkey) (s t : System) → Setup.set_admin env a b s ≡ ok t → Numbered s t
  unfolding Setup.set_admin config_account
  set_admin-Numbered a b s t e = unchanged s t (ground arith) (
      >>=-elim (require (bytes_eq a env.deployer) (anchor constraint_address)) _ e λ _ _ e1.
        >>=-elim (config_account s) _ e1
          λ config found done. ap nonce_of (sym (ok-injective done)) ∙ sym (config_known s found))

  process-Numbered : (i : Instruction) (s t : System) → process env i s ≡ ok t → Numbered s t
  unfolding process
  process-Numbered (Instruction.initialize a c m r ts es) s t e =
      initialize-Numbered a c m r ts es s t e
  process-Numbered (Instruction.load_operation x d h) s t e = load-Numbered x d h s t e
  process-Numbered (Instruction.sign_operation x h sigs) s t e =
      >>=-elim (Sign.sign_operation env x h sigs s) _ e λ r signed done.
        sign-Numbered x h sigs s t (signed ∙ ap (λ (u : System). ok (r.0, u)) (ok-injective done))
  process-Numbered (Instruction.execute_operation x h rest) s t e = execute-Numbered x h rest s t e
  process-Numbered (Instruction.propose x p c a f ps) s t e = propose-Numbered x p c a f ps s t e
  process-Numbered (Instruction.receive_photon_msg x c h code ps) s t e =
      GovCall-Numbered x h code s (receive_photon_msg_ok env x c h code ps s e)
  process-Numbered (Instruction.set_admin x a) s t e = set_admin-Numbered x a s t e

  step-Numbered : (i : Instruction) (s : System) → Numbered s (step env s i)
  unfolding step
  step-Numbered i s =
      Result-elim (process env i s) {P = Numbered s} (process-Numbered i s) (Numbered-refl s)

  -- Over any history of transactions events are only added. The proposals among the added ones carry the
  -- numbers from the nonce before the history, one after the other, up to the nonce after it: no
  -- nonce is left out and none is used twice, whoever proposes.
  pub run-Numbered :
      (is : List Instruction) (s : System)
      → (new_events : List Event) × ((run env s is).events ≡ s.events ++ new_events)
        × IsNumbered (nonce_of s) (nonce_of (run env s is)) (nonces new_events)
  unfolding run
  run-Numbered [] s = Numbered-refl s
  run-Numbered (i ∷ is) s =
      Numbered-trans s (step env s i) (run env (step env s i) is) (step-Numbered i s)
        (run-Numbered is (step env s i))
