-- ===== src/Endpoint/Step/Moves.antt =====
-- What one instruction can do to one operation account.
use photon_solana_contracts.Prelude.{
  ℕ, ◌<◌, ◌≡◌, length, refl, sym, ap, ◌∙◌, subst, subst₂, ◌⊎◌, inl, inr, Bool, true, false, Bytes,
  Option, none, some, List, [], bytes_eq, bytes_eq_iff, arith, if◌then◌else◌, Bool-cases,
}
use photon_solana_contracts.Prelude.Assoc.{lookup, insert, lookup-insert_self, lookup-insert_ne}
use photon_solana_contracts.Errors.{Result, ok, err, >>=-elim, ok-injective}
use photon_solana_contracts.Environment.{Environment, CpiInstruction, AccountMeta}
use photon_solana_contracts.Slots.Packed.{IsPacked-padded}
use photon_solana_contracts.ProtocolData.{
  Pubkey, default_eth_address, OperationData, FunctionSelector, TransmitterSignature, OpStatus,
  op_hash_with_message,
}
use photon_solana_contracts.State.{
  System, OpInfo, ProtocolInfo, ProposeEvent, transmitters, max_signers, emit, proposal_approved,
}
use photon_solana_contracts.Endpoint.Accounts.{
  protocol_account, write_config, write_protocol, write_op,
}
use photon_solana_contracts.Endpoint.Receive.{emit_propose}
use photon_solana_contracts.Endpoint.Load.Effects.{loaded, load_operation-effect}
use photon_solana_contracts.Endpoint.Sign.Consensus.{HasSlots, Signing, signers_of, sign_op-effect}
use photon_solana_contracts.Endpoint.Sign.Checks.{sign_operation_ok}
use photon_solana_contracts.Endpoint.Receive.Effects.{GovCall, receive_photon_msg_ok, op_account_ok}
use photon_solana_contracts.Endpoint.Execute.Effects.{Called, execute_operation_ok}
use photon_solana_contracts.Endpoint.Setup
use photon_solana_contracts.Endpoint.Load
use photon_solana_contracts.Endpoint.Sign
use photon_solana_contracts.Endpoint.Sign.{consensus_rate}
use photon_solana_contracts.Endpoint.Execute
use photon_solana_contracts.Endpoint.Proposal
use photon_solana_contracts.Endpoint.Step.{Instruction, process, step}

module _ (env : Environment) (s : System) (i : Instruction) (h : Bytes) where
  -- The moves of the account with the seed `h` under the instruction `i`.
  pub data Move : Option OpInfo → Option OpInfo → Type 0 where
    stays : (o : Option OpInfo) → Move o o
    loads :
        (x : Pubkey) (d : OperationData)
        → i ≡ Instruction.load_operation x d h
        → op_hash_with_message env d ≡ ok h
        → Move none (some (loaded d))
    signs :
        (x : Pubkey) (info : ProtocolInfo) (sigs : List TransmitterSignature) (o o' : OpInfo)
        (reached : Bool)
        → i ≡ Instruction.sign_operation x h sigs
        → (o.status ≡ OpStatus.init) ⊎ (o.status ≡ OpStatus.signed)
        → protocol_account o.op_data.protocol_id s ≡ ok info
        → consensus_rate (length (signers_of o)) (length (transmitters info))
          < info.consensus_target_rate
        → Signing env info h sigs o o' reached
        → Move (some o) (some o')
    executes :
        (x : Pubkey) (rest : List AccountMeta) (o : OpInfo)
        → i ≡ Instruction.execute_operation x h rest
        → o.status ≡ OpStatus.signed
        → Move (some o) (some (record o { status = OpStatus.executed }))

-- Every operation account has packed signer slots.
abbrev pub AllHasSlots : System → Type 0
AllHasSlots s = (h : Bytes) (o : OpInfo) → lookup h s.ops ≡ some o → HasSlots o

-- No instruction but the three stages writes an operation account.
emit_propose-ops : (e : Option ProposeEvent) (s : System) → (emit_propose e s).ops ≡ s.ops
emit_propose-ops none s = refl
emit_propose-ops (some e) s = refl

GovCall-ops :
    (env : Environment) (executor : Pubkey) (op_hash code : Bytes) (s : System) {t : System}
    → GovCall env executor op_hash code s t
    → t.ops ≡ s.ops
GovCall-ops env executor op_hash code s {t} g =
    ap (λ (x : System). x.ops) g.result
    ∙ emit_propose-ops g.event (write_config g.config (write_protocol g.target g.info s))

Called-ops :
    (env : Environment) (executor : Pubkey) (op_hash : Bytes) (d : OperationData)
    (ix : CpiInstruction) (s : System) {t : System}
    → Called env executor op_hash d ix s t
    → t.ops ≡ s.ops
Called-ops env executor op_hash d ix s (Called.endpoint code _ _ g) =
    GovCall-ops env executor op_hash code s g
Called-ops env executor op_hash d ix s (Called.other _ _) = refl

initialize-ops :
    (env : Environment) (a : Pubkey) (c : ℕ) (m : Bytes) (r : ℕ) (ts es : List Bytes) (s : System)
    {t : System}
    → Setup.initialize env a c m r ts es s ≡ ok t
    → t.ops ≡ s.ops
unfolding Setup.initialize
initialize-ops env a c m r ts es s {t} e = ground arith

set_admin-ops :
    (env : Environment) (a b : Pubkey) (s : System) {t : System}
    → Setup.set_admin env a b s ≡ ok t
    → t.ops ≡ s.ops
unfolding Setup.set_admin
set_admin-ops env a b s e = ground arith

propose-ops :
    (x p : Bytes) (c : ℕ) (a : Bytes) (f : FunctionSelector) (ps : Bytes) (s : System) {t : System}
    → Proposal.propose x p c a f ps s ≡ ok t
    → t.ops ≡ s.ops
unfolding Proposal.propose
propose-ops x p c a f ps s e = ground arith

approved_ops :
    (x k : Bytes) (op' : OpInfo) (approved : Bool) (s : System)
    → (if approved then emit (proposal_approved k x) (write_op k op' s) else write_op k op' s).ops
      ≡ insert k op' s.ops
approved_ops x k op' true s = refl
approved_ops x k op' false s = refl

pub some-injective : {a b : OpInfo} → ◌≡◌ {A = Option OpInfo} (some a) (some b) → a ≡ b
some-injective e = cc

pub Result-elim :
    (r : Result System) {s : System} {P : System → Type 0}
    → ((t : System) → r ≡ ok t → P t)
    → P s
    → P (elim r [ ok t ↦ t | err _ ↦ s ])
Result-elim (ok t) f p = f t refl
Result-elim (err e) f p = p

module _ (env : Environment) (i : Instruction) (s t : System) (h : Bytes) where
  same_ops : t.ops ≡ s.ops → Move env s i h (lookup h s.ops) (lookup h t.ops)
  same_ops e =
      subst (λ m. Move env s i h (lookup h s.ops) (lookup h m)) (sym e) (stays (lookup h s.ops))

  -- Writing the account of the seed `k`.
  written :
      (k : Bytes) (o : OpInfo) (before : Option OpInfo)
      → lookup k s.ops ≡ before
      → t.ops ≡ insert k o s.ops
      → (k ≡ h → Move env s i h before (some o))
      → Move env s i h (lookup h s.ops) (lookup h t.ops)
  written k o before found e move = elim (Bool-cases (bytes_eq k h)) [
    | inl same ↦
        let k_is_h = (bytes_eq_iff k h).0 same in
        subst₂ (Move env s i h) (sym found ∙ ap (λ x. lookup x s.ops) k_is_h)
          (sym (lookup-insert_self k o s.ops)
            ∙ ap (lookup k) (sym e)
            ∙ ap (λ x. lookup x t.ops) k_is_h)
          (move k_is_h)
    | inr other ↦
        subst (Move env s i h (lookup h s.ops))
          (sym (lookup-insert_ne k h o s.ops (λ k_is_h. ground (arith, bytes_eq_iff k h)))
            ∙ ap (lookup h) (sym e))
          (stays (lookup h s.ops))
  ]

  load-Move :
      (x : Pubkey) (d : OperationData) (k : Bytes)
      → i ≡ Instruction.load_operation x d k
      → Load.load_operation env x d k s ≡ ok t
      → Move env s i h (lookup h s.ops) (lookup h t.ops)
  load-Move x d k by e =
      let (can, _, done) = load_operation-effect env x d k s e in
      written k (loaded d) none can.fresh (ap (λ (y : System). y.ops) done) (λ same.
        loads x d (by ∙ ap (Instruction.load_operation x d) same) (can.hashed ∙ ap ok same))

  execute-Move :
      (x : Pubkey) (k : Bytes) (rest : List AccountMeta)
      → i ≡ Instruction.execute_operation x k rest
      → Execute.execute_operation env x k rest s ≡ ok t
      → Move env s i h (lookup h s.ops) (lookup h t.ops)
  execute-Move x k rest by e =
      let ex = execute_operation_ok env x k rest s e in
      written k (record ex.op { status = OpStatus.executed }) (some ex.op) ex.op_found
        (ap (λ (y : System). y.ops) ex.result
          ∙ ap (insert k (record ex.op { status = OpStatus.executed }))
              (Called-ops env x k ex.op.op_data ex.ix s ex.called))
        (λ same.
          executes x rest ex.op (by ∙ ap (λ y. Instruction.execute_operation x y rest) same)
            ex.is_signed)

  sign-Move :
      (x : Pubkey) (k : Bytes) (sigs : List TransmitterSignature) {answer : Bool}
      → AllHasSlots s
      → i ≡ Instruction.sign_operation x k sigs
      → Sign.sign_operation env x k sigs s ≡ ok (answer, t)
      → Move env s i h (lookup h s.ops) (lookup h t.ops)
  sign-Move x k sigs {answer} slots by e =
      let (op, info, op', approved, found, info_found, _, state, signed, done) =
        sign_operation_ok env x k sigs s e in
      let at_k = op_account_ok k s found in
      let ops_t : t.ops ≡ insert k op' s.ops =
        ap (λ (y : System). y.ops) done ∙ approved_ops x k op' approved s in
      let (_, cases) = sign_op-effect env info k sigs op (slots k op at_k) signed in
      written k op' (some op) at_k ops_t (λ same. elim cases [
        | inl (_, unchanged, _, _) ↦
            subst (λ o. Move env s i h (some op) (some o)) (sym unchanged) (stays (some op))
        | inr (few, signing, _) ↦
            signs x info sigs op op' answer
              (by ∙ ap (λ y. Instruction.sign_operation x y sigs) same) state info_found few
              (subst (λ y. Signing env info y sigs op op' answer) same signing)
      ])

-- One transaction makes at most one move of an account.
pub process-Move :
    (env : Environment) (i : Instruction) (s t : System) (h : Bytes)
    → AllHasSlots s
    → process env i s ≡ ok t
    → Move env s i h (lookup h s.ops) (lookup h t.ops)
unfolding process
process-Move env (Instruction.initialize a c m r ts es) s t h slots e =
    same_ops env (Instruction.initialize a c m r ts es) s t h (initialize-ops env a c m r ts es s e)
process-Move env (Instruction.load_operation x d k) s t h slots e =
    load-Move env (Instruction.load_operation x d k) s t h x d k refl e
process-Move env (Instruction.sign_operation x k sigs) s t h slots e =
    >>=-elim (Sign.sign_operation env x k sigs s) _ e λ r done e1.
      sign-Move env (Instruction.sign_operation x k sigs) s t h x k sigs slots refl
        (done ∙ ap (λ (y : System). ok (r.0, y)) (ok-injective e1))
process-Move env (Instruction.execute_operation x k rest) s t h slots e =
    execute-Move env (Instruction.execute_operation x k rest) s t h x k rest refl e
process-Move env (Instruction.propose x p c a f ps) s t h slots e =
    same_ops env (Instruction.propose x p c a f ps) s t h (propose-ops x p c a f ps s e)
process-Move env (Instruction.receive_photon_msg x c k code ps) s t h slots e =
    same_ops env (Instruction.receive_photon_msg x c k code ps) s t h
      (GovCall-ops env x k code s (receive_photon_msg_ok env x c k code ps s e))
process-Move env (Instruction.set_admin x a) s t h slots e =
    same_ops env (Instruction.set_admin x a) s t h (set_admin-ops env x a s e)

-- A transaction, failed or not.
pub step-Move :
    (env : Environment) (s : System) (i : Instruction) (h : Bytes)
    → AllHasSlots s
    → Move env s i h (lookup h s.ops) (lookup h (step env s i).ops)
unfolding step
step-Move env s i h slots =
    Result-elim (process env i s) (λ t e. process-Move env i s t h slots e) (stays (lookup h s.ops))

Move-HasSlots :
    (env : Environment) (s : System) (i : Instruction) (h : Bytes) {o o' : Option OpInfo}
    → Move env s i h o o'
    → ((x : OpInfo) → o ≡ some x → HasSlots x)
    → (x : OpInfo) → o' ≡ some x
    → HasSlots x
Move-HasSlots env s i h (stays o) before x e = before x e
Move-HasSlots env s i h (loads _ d _ _) before x e =
    subst HasSlots (some-injective e)
      (IsPacked-padded max_signers default_eth_address [] tt tt (omega arith))
Move-HasSlots env s i h (signs _ info sigs o o' reached _ _ _ _ signing) before x e =
    subst HasSlots (some-injective e) signing.slots
Move-HasSlots env s i h (executes _ _ o _ _) before x e =
    subst HasSlots (some-injective e) (before o refl)

-- Every transaction keeps the signer slots of every operation packed.
pub step-AllHasSlots :
    (env : Environment) (s : System) (i : Instruction) → AllHasSlots s → AllHasSlots (step env s i)
step-AllHasSlots env s i slots h o e =
    Move-HasSlots env s i h (step-Move env s i h slots) (slots h) o e

pub process-AllHasSlots :
    (env : Environment) (i : Instruction) (s t : System)
    → AllHasSlots s
    → process env i s ≡ ok t
    → AllHasSlots t
process-AllHasSlots env i s t slots e h o at_h =
    Move-HasSlots env s i h (process-Move env i s t h slots e) (slots h) o at_h
