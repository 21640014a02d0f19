-- ===== src/Endpoint/Execute/Effects.antt =====
-- What `execute_operation` has checked and done when it succeeds.
use photon_solana_contracts.Prelude.{
  ℕ, ◌≡◌, refl, sym, ap, subst, true, false, not, Bytes, Option, none, some, List, [], ◌∷◌,
  bytes_eq, bytes_eq_iff, contains, arith, filter_b, All, if-elim,
}
use photon_solana_contracts.Prelude.Assoc.{lookup}
use photon_solana_contracts.Errors.{
  Result, ok, err, custom, cpi, op_state_invalid, require, >>=-elim, ok-injective,
}
use photon_solana_contracts.Environment.{Environment, AccountMeta, CpiInstruction}
use photon_solana_contracts.ProtocolData.{
  Pubkey, OpStatus, status_eq, OperationData, FunctionSelector, by_code, by_name, dummy,
}
use photon_solana_contracts.State.{System, OpInfo, ProtocolInfo, proposal_executed, emit}
use photon_solana_contracts.Endpoint.Accounts.{
  op_account, protocol_account, check_executor, write_op,
}
use photon_solana_contracts.Endpoint.Receive.Effects.{
  GovCall, receive_photon_msg_ok, op_account_ok, status_eq_sound,
}
use photon_solana_contracts.Endpoint.Execute.{
  root, call_authority_seed, program_account, call_of, call_accounts, build_call, self_call,
  invoke_signed, execute_operation,
}

-- The one call that an execution makes, and what it leaves of the state.
pub data Called (env : Environment) (executor : Pubkey) (op_hash : Bytes) (d : OperationData)
    (ix : CpiInstruction) (s : System) : System → Type 0 where
  endpoint :
      (code : Bytes) {t : System}
      → d.protocol_addr ≡ env.photon_id
      → d.function_selector ≡ by_code code
      → GovCall env executor op_hash code s t
      → Called env executor op_hash d ix s t
  other :
      bytes_eq d.protocol_addr env.photon_id ≡ false
      → env.invoke ix ≡ none
      → Called env executor op_hash d ix s s

pub record Execution (env : Environment) (executor : Pubkey) (op_hash : Bytes)
    (remaining : List AccountMeta) (s t : System) : Type 0 where
  pub op : OpInfo
  pub op_found : lookup op_hash s.ops ≡ some op
  pub is_signed : op.status ≡ OpStatus.signed
  pub info : ProtocolInfo
  pub info_found : protocol_account op.op_data.protocol_id s ≡ ok info
  pub listed : contains info.executor_slots executor ≡ true
  pub ix : CpiInstruction
  pub built : build_call env executor op_hash op.op_data remaining ≡ ok ix
  pub after_call : System
  pub called : Called env executor op_hash op.op_data ix s after_call
  pub result :
      t
      ≡ emit
          (proposal_executed op_hash executor)
          (write_op op_hash (record op { status = OpStatus.executed }) after_call)

self_call_ok :
    (env : Environment) (executor : Pubkey) (op_hash : Bytes) (d : OperationData)
    (ix : CpiInstruction) (s : System) {t : System} (f : FunctionSelector)
    → d.protocol_addr ≡ env.photon_id
    → d.function_selector ≡ f
    → self_call env executor op_hash d s ≡ ok t
    → Called env executor op_hash d ix s t
unfolding self_call
self_call_ok env executor op_hash d ix s (by_code c) addr same e = Called.endpoint c addr same (
    receive_photon_msg_ok env executor
      (env.find_program_address (root ∷ call_authority_seed ∷ d.protocol_id ∷ [])) op_hash c
      d.params s (ground arith))
self_call_ok env executor op_hash d ix s (by_name n) addr same e = absurd (ground arith)
self_call_ok env executor op_hash d ix s dummy addr same e = absurd (ground arith)

invoke_ok :
    (env : Environment) (executor : Pubkey) (op_hash : Bytes) (d : OperationData)
    (ix : CpiInstruction) (s : System) {t : System} (answer : Option ℕ)
    → bytes_eq d.protocol_addr env.photon_id ≡ false
    → env.invoke ix ≡ answer
    → elim answer as (λ _. Result System) [ none ↦ ok s | some code ↦ err (cpi code) ] ≡ ok t
    → Called env executor op_hash d ix s t
invoke_ok env executor op_hash d ix s none away same e =
    subst (Called env executor op_hash d ix s) (ok-injective e) (Called.other away same)
invoke_ok env executor op_hash d ix s (some c) away same e = absurd (cc e)

pub invoke_signed_ok :
    (env : Environment) (executor : Pubkey) (op_hash : Bytes) (d : OperationData)
    (ix : CpiInstruction) (s : System) {t : System}
    → invoke_signed env executor op_hash d ix s ≡ ok t
    → Called env executor op_hash d ix s t
unfolding invoke_signed
invoke_signed_ok env executor op_hash d ix s {t} e =
    if-elim (bytes_eq d.protocol_addr env.photon_id) e
      (λ here done.
        self_call_ok env executor op_hash d ix s d.function_selector ((bytes_eq_iff _ _).0 here)
          refl done)
      (λ away done. invoke_ok env executor op_hash d ix s (env.invoke ix) away refl done)

-- An execution that succeeds is of a signed operation, by an executor that the operation's
-- protocol lists. It makes one call, of the instruction that `build_call` gives for the stored
-- operation; then it marks the operation as executed and emits one event. The call is a
-- governance message, by code, if it goes to the endpoint itself, and otherwise one that succeeds
-- and leaves the state alone.
pub execute_operation_ok :
    (env : Environment) (executor : Pubkey) (op_hash : Bytes) (remaining : List AccountMeta)
    (s : System) {t : System}
    → execute_operation env executor op_hash remaining s ≡ ok t
    → Execution env executor op_hash remaining s t
unfolding execute_operation check_executor
execute_operation_ok env executor op_hash remaining s {t} e =
    >>=-elim (op_account op_hash s) _ e λ op found e1.
      >>=-elim (protocol_account op.op_data.protocol_id s) _ e1 λ info info_found e2.
        >>=-elim (check_executor info executor) _ e2 λ _ allowed e3.
          >>=-elim (require (status_eq op.status OpStatus.signed) (custom op_state_invalid)) _ e3
            λ _ state e4.
              >>=-elim (build_call env executor op_hash op.op_data remaining) _ e4 λ ix built e5.
                >>=-elim (invoke_signed env executor op_hash op.op_data ix s) _ e5
                  λ after_call invoked done. record {
                    op = op;
                    op_found = op_account_ok op_hash s found;
                    is_signed = status_eq_sound op.status OpStatus.signed (ground arith);
                    info = info;
                    info_found = info_found;
                    listed = ground arith;
                    ix = ix;
                    built = built;
                    after_call = after_call;
                    called = invoke_signed_ok env executor op_hash op.op_data ix s invoked;
                    result = sym (ok-injective done);
                  }

program_account_ok :
    (addr : Pubkey) (remaining : List AccountMeta) {program : AccountMeta}
    → program_account addr remaining ≡ ok program
    → (a : AccountMeta) × (rest : List AccountMeta) × (remaining ≡ a ∷ rest) × (a.key ≡ addr)
unfolding program_account
program_account_ok addr [] e = absurd (cc e)
program_account_ok addr (a ∷ rest) e = (a, rest, refl, ground (arith, bytes_eq_iff a.key addr))

All-others :
    (addr : Pubkey) (xs : List AccountMeta)
    → All
        (λ (a : AccountMeta). bytes_eq a.key addr ≡ false)
        (filter_b (λ (a : AccountMeta). not (bytes_eq a.key addr)) xs)
All-others addr [] = tt
All-others addr (a ∷ xs) = ground (arith, All-others addr xs)

call_of_dummy :
    (env : Environment) (d : OperationData) (op_hash : Bytes) {r : Bytes × Bytes}
    → d.function_selector ≡ dummy
    → call_of env d op_hash ≡ ok r
    → ⊥
unfolding call_of
call_of_dummy env d op_hash same e = ground arith

-- If the instruction of an execution can be built, the first remaining account is the
-- operation's protocol address; the call goes to that address, no account of the call is that
-- address, and the operation's selector is not the dummy one.
pub build_call_ok :
    (env : Environment) (executor : Pubkey) (op_hash : Bytes) (d : OperationData)
    (remaining : List AccountMeta) {ix : CpiInstruction}
    → build_call env executor op_hash d remaining ≡ ok ix
    → ((program : AccountMeta) × (rest : List AccountMeta) × (remaining ≡ program ∷ rest)
        × (program.key ≡ d.protocol_addr))
      × (ix.program_id ≡ d.protocol_addr)
      × All (λ (a : AccountMeta). bytes_eq a.key d.protocol_addr ≡ false) ix.metas
      × (d.function_selector ≡ dummy → ⊥)
unfolding build_call
build_call_ok env executor op_hash d remaining {ix} e =
    >>=-elim (program_account d.protocol_addr remaining) _ e λ program first e1.
      >>=-elim (call_of env d op_hash) _ e1 λ call called done.
        let same = ok-injective done in
        (
          program_account_ok d.protocol_addr remaining first,
          ap (λ (i : CpiInstruction). i.program_id) (sym same),
          subst
              (λ (i : CpiInstruction).
                All (λ (a : AccountMeta). bytes_eq a.key d.protocol_addr ≡ false) i.metas)
              same
              (All-others d.protocol_addr (call_accounts env executor op_hash d program remaining)),
          λ is_dummy. call_of_dummy env d op_hash is_dummy called,
        )
