-- ===== src/Endpoint/Step/Lifecycle.antt =====
-- The life of an operation over a history of transactions.
use photon_solana_contracts.Prelude.{
  ◌≤◌, ◌≡◌, ◌≢◌, refl, sym, ap, ◌∙◌, subst, ◌⊎◌, Bool, true, Bytes, Option, some, List, [], ◌∷◌,
  contains, arith, if◌then◌else◌,
}
use photon_solana_contracts.Prelude.Assoc.{lookup, lookup-insert_self}
use photon_solana_contracts.Errors.{ok}
use photon_solana_contracts.Environment.{Environment, AccountMeta}
use photon_solana_contracts.Slots.Laws.{contains-append}
use photon_solana_contracts.ProtocolData.{Pubkey, EthAddress, OpStatus, as_u8, op_hash_with_message}
use photon_solana_contracts.State.{System, OpInfo}
use photon_solana_contracts.Endpoint.Sign.Consensus.{signers_of}
use photon_solana_contracts.Endpoint.Execute
use photon_solana_contracts.Endpoint.Execute.Effects.{execute_operation_ok}
use photon_solana_contracts.Endpoint.Step.{Instruction, process, step, run}
use photon_solana_contracts.Endpoint.Step.Moves.{
  Move, stays, loads, signs, executes, AllHasSlots, step-Move, step-AllHasSlots, some-injective,
  process-AllHasSlots,
}

-- From one state of an operation to a later one.
pub record Progress (o o' : OpInfo) : Type 0 where
  pub same_data : o'.op_data ≡ o.op_data
  pub forward : as_u8 o.status ≤ as_u8 o'.status
  pub keeps :
      (a : EthAddress) → contains (signers_of o) a ≡ true → contains (signers_of o') a ≡ true

Progress-refl : (o : OpInfo) → Progress o o
Progress-refl o = record { same_data = refl; forward = omega arith; keeps = λ a e. e }

Progress-trans : {o p q : OpInfo} → Progress o p → Progress p q → Progress o q
Progress-trans a b = record {
  same_data = b.same_data ∙ a.same_data;
  forward = let x = a.forward in let y = b.forward in omega arith;
  keeps = λ t e. b.keeps t (a.keeps t e);
}

signs_forward :
    (o o' : OpInfo) (reached : Bool)
    → (o.status ≡ OpStatus.init) ⊎ (o.status ≡ OpStatus.signed)
    → o'.status ≡ (if reached then OpStatus.signed else o.status)
    → as_u8 o.status ≤ as_u8 o'.status
signs_forward o o' reached state e = ground arith

-- Every move of an existing account is progress.
Move-Progress :
    (env : Environment) (s : System) (i : Instruction) (h : Bytes) {x y : Option OpInfo}
    → Move env s i h x y
    → (o : OpInfo) → x ≡ some o
    → (o' : OpInfo) × (y ≡ some o') × Progress o o'
Move-Progress env s i h (stays x) o e = (o, e, Progress-refl o)
Move-Progress env s i h (loads _ d _ _) o e = absurd (cc e)
Move-Progress env s i h (signs _ info sigs p p' reached _ state _ _ signing) o e = (
  p',
  refl,
  subst (λ z. Progress z p') (some-injective e)
      (record {
        same_data = signing.same_data;
        forward = signs_forward p p' reached state signing.new_status;
        keeps = λ a h.
            ap (λ xs. contains xs a) signing.signers
            ∙ ground (arith, contains-append (signers_of p) signing.added a);
      }),
)
Move-Progress env s i h (executes _ _ p _ is_signed) o e = (
  record p { status = OpStatus.executed },
  refl,
  subst (λ z. Progress z (record p { status = OpStatus.executed })) (some-injective e)
      (record { same_data = refl; forward = ground arith; keeps = λ a h. h }),
)

module _ (env : Environment) where
  -- Over any history of transactions from a state with packed signer slots, a stored operation
  -- stays stored, its data never change, its status never goes back, and no recorded signer is
  -- lost.
  pub run-Progress :
      (is : List Instruction) (s : System) (h : Bytes) (o : OpInfo)
      → AllHasSlots s
      → lookup h s.ops ≡ some o
      → (o' : OpInfo) × (lookup h (run env s is).ops ≡ some o') × Progress o o'
  unfolding run
  run-Progress [] s h o slots e = (o, e, Progress-refl o)
  run-Progress (i ∷ is) s h o slots e =
      let (p, at_p, first) = Move-Progress env s i h (step-Move env s i h slots) o e in
      let (q, at_q, later) =
        run-Progress is (step env s i) h p (step-AllHasSlots env s i slots) at_p in
      (q, at_q, Progress-trans first later)

  -- Let the signer slots of every operation be packed. After an execution that succeeded, no
  -- history of transactions makes another execution of the same operation succeed, whoever asks
  -- for it and with whatever accounts.
  pub execute_operation-once :
      (x y : Pubkey) (h : Bytes) (rest rest' : List AccountMeta) (is : List Instruction)
      (s t u : System)
      → AllHasSlots s
      → Execute.execute_operation env x h rest s ≡ ok t
      → Execute.execute_operation env y h rest' (run env t is) ≢ ok u
  unfolding process
  execute_operation-once x y h rest rest' is s t u slots e again =
      let ex = execute_operation_ok env x h rest s e in
      let done : OpInfo = record ex.op { status = OpStatus.executed } in
      let at_t : lookup h t.ops ≡ some done =
        ap (λ (z : System). lookup h z.ops) ex.result
        ∙ lookup-insert_self h done ex.after_call.ops in
      let (o, at_o, p) =
        run-Progress is t h done
          (process-AllHasSlots env (Instruction.execute_operation x h rest) s t slots e) at_t in
      let ey = execute_operation_ok env y h rest' (run env t is) again in
      let same = some-injective (sym at_o ∙ ey.op_found) in
      let forward = p.forward in
      let status = ap (λ (z : OpInfo). as_u8 z.status) same ∙ ap as_u8 ey.is_signed in
      absurd (ground arith)

  -- Every stored operation is stored under its own hash.
  abbrev pub AllHashed : System → Type 0
  AllHashed s =
      (h : Bytes) (o : OpInfo) → lookup h s.ops ≡ some o → op_hash_with_message env o.op_data ≡ ok h

  Move-hashed :
      (s : System) (i : Instruction) (h : Bytes) {x y : Option OpInfo}
      → Move env s i h x y
      → ((o : OpInfo) → x ≡ some o → op_hash_with_message env o.op_data ≡ ok h)
      → (o : OpInfo) → y ≡ some o
      → op_hash_with_message env o.op_data ≡ ok h
  Move-hashed s i h (stays x) before o e = before o e
  Move-hashed s i h (loads _ d _ hashed) before o e =
      subst (λ (z : OpInfo). op_hash_with_message env z.op_data ≡ ok h) (some-injective e) hashed
  Move-hashed s i h (signs _ info sigs p p' reached _ _ _ _ signing) before o e =
      subst (λ (z : OpInfo). op_hash_with_message env z.op_data ≡ ok h) (some-injective e)
        (ap (op_hash_with_message env) signing.same_data ∙ before p refl)
  Move-hashed s i h (executes _ _ p _ _) before o e =
      subst (λ (z : OpInfo). op_hash_with_message env z.op_data ≡ ok h) (some-injective e)
        (before p refl)

  -- If in some state every operation is stored under the hash of its own data and its signer
  -- slots are packed (distinct signers first, then free slots), the same holds in every state
  -- that a history of transactions reaches from it.
  pub run-AllHashed :
      (is : List Instruction) (s : System)
      → AllHasSlots s
      → AllHashed s
      → AllHashed (run env s is) × AllHasSlots (run env s is)
  unfolding run
  run-AllHashed [] s slots hashed = (hashed, slots)
  run-AllHashed (i ∷ is) s slots hashed =
      run-AllHashed is (step env s i) (step-AllHasSlots env s i slots)
        (λ h o e. Move-hashed s i h (step-Move env s i h slots) (hashed h) o e)
