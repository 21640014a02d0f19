-- ===== src/Endpoint/Step/Approval.antt =====
-- Where the recorded signers and the approvals of an operation come from.
use photon_solana_contracts.Prelude.{
  ℕ, ◌≤◌, ◌<◌, ◌≡◌, ◌≢◌, refl, sym, ap, ◌∙◌, subst, ◌⊎◌, inl, inr, true, false, Bytes, bytes_eq,
  bytes_eq_iff, Option, some, List, [], ◌∷◌, ◌++◌, contains, All, arith, Bool-cases,
}
use photon_solana_contracts.Prelude.Assoc.{lookup}
use photon_solana_contracts.Errors.{ok}
use photon_solana_contracts.Environment.{Environment}
use photon_solana_contracts.Slots.Laws.{contains-append, active-padded}
use photon_solana_contracts.ProtocolData.{
  Pubkey, EthAddress, default_eth_address, OperationData, TransmitterSignature, as_u8,
}
use photon_solana_contracts.State.{System, OpInfo, ProtocolInfo, transmitters, max_signers}
use photon_solana_contracts.Endpoint.Accounts.{protocol_account}
use photon_solana_contracts.Endpoint.Load.Effects.{loaded}
use photon_solana_contracts.Endpoint.Sign.Loop.{Recovers, IsSigner}
use photon_solana_contracts.Endpoint.Sign.Consensus.{Signing, signers_of}
use photon_solana_contracts.Endpoint.Step.{Instruction, step, run}
use photon_solana_contracts.Endpoint.Step.Moves.{
  Move, stays, loads, signs, executes, AllHasSlots, step-Move, step-AllHasSlots, some-injective,
}

loaded_no_signers : (d : OperationData) (a : EthAddress) → contains (signers_of (loaded d)) a ≢ true
unfolding contains
loaded_no_signers d a e =
    absurd (
      cc (sym (ap (λ xs. contains xs a) (active-padded max_signers default_eth_address [] tt)) ∙ e))

added_signer :
    (out old added : List EthAddress) (a : EthAddress)
    → out ≡ old ++ added
    → contains out a ≡ true
    → contains old a ≡ false
    → contains added a ≡ true
added_signer out old added a e c new =
    let both = contains-append old added a in
    let c' = ap (λ xs. contains xs a) (sym e) ∙ c in ground arith

module _ (env : Environment) where
  -- The instruction carries a signature over `h` that recovers to `a`.
  abbrev pub SignsFor : Bytes → EthAddress → Instruction → Type 0
  SignsFor h a i =
      (x : Pubkey) × (sigs : List TransmitterSignature) × (i ≡ Instruction.sign_operation x h sigs)
      × Recovers env h a sigs

  -- Some transaction of the history does.
  abbrev pub HasSigned : Bytes → EthAddress → List Instruction → Type 0
  HasSigned h a [] = ⊥
  HasSigned h a (i ∷ is) = SignsFor h a i ⊎ HasSigned h a is

  member-signs :
      (x : Pubkey) (h : Bytes) (allowed : List EthAddress) (target : ℕ)
      (sigs : List TransmitterSignature) (ts : List EthAddress) (a : EthAddress)
      → All (IsSigner env allowed target h sigs) ts
      → contains ts a ≡ true
      → Recovers env h a sigs
  unfolding contains
  member-signs x h allowed target sigs [] a g e = absurd (cc e)
  member-signs x h allowed target sigs (t ∷ ts) a g e = elim (Bool-cases (bytes_eq t a)) [
    | inl same ↦ subst (λ b. Recovers env h b sigs) ((bytes_eq_iff t a).0 same) g.0.1
    | inr other ↦ member-signs x h allowed target sigs ts a g.1 (ground arith)
  ]

  -- A signer that one move adds has signed in this transaction.
  Move-signers :
      (s : System) (i : Instruction) (h : Bytes) {x y : Option OpInfo} (a : EthAddress)
      → Move env s i h x y
      → (o' : OpInfo) → y ≡ some o'
      → contains (signers_of o') a ≡ true
      → ((o : OpInfo) × (x ≡ some o) × (contains (signers_of o) a ≡ true)) ⊎ SignsFor h a i
  Move-signers s i h a (stays x) o' e c = inl (o', e, c)
  Move-signers s i h a (loads x d _ _) o' e c =
      absurd (loaded_no_signers d a (ap (λ o. contains (signers_of o) a) (some-injective e) ∙ c))
  Move-signers s i h a (signs x info sigs p p' reached by _ _ _ signing) o' e c =
      elim (Bool-cases (contains (signers_of p) a)) [
        | inl old ↦ inl (p, refl, old)
        | inr new ↦ inr (
          x,
          sigs,
          by,
          member-signs x h (transmitters info) info.consensus_target_rate sigs signing.added a
              signing.genuine
              (added_signer (signers_of p') (signers_of p) signing.added a signing.signers
                (ap (λ o. contains (signers_of o) a) (some-injective e) ∙ c) new),
        )
      ]
  Move-signers s i h a (executes x rest p _ _) o' e c =
      inl (p, refl, ap (λ o. contains (signers_of o) a) (some-injective e) ∙ c)

  -- Let the signer slots of every operation be packed before a history. Every signer that is
  -- recorded for an operation after it was recorded before it, or has signed the operation's
  -- hash in some transaction of the history.
  pub run-signers :
      (is : List Instruction) (s : System) (h : Bytes) (a : EthAddress) (o : OpInfo)
      → AllHasSlots s
      → lookup h (run env s is).ops ≡ some o
      → contains (signers_of o) a ≡ true
      → ((p : OpInfo) × (lookup h s.ops ≡ some p) × (contains (signers_of p) a ≡ true))
        ⊎ HasSigned h a is
  unfolding run
  run-signers [] s h a o slots e c = inl (o, e, c)
  run-signers (i ∷ is) s h a o slots e c =
      elim (run-signers is (step env s i) h a o (step-AllHasSlots env s i slots) e c) [
        | inr later ↦ inr (inr later)
        | inl (p, at_p, c_p) ↦ elim (Move-signers s i h a (step-Move env s i h slots) p at_p c_p) [
          | inl before ↦ inl before
          | inr now ↦ inr (inl now)
        ]
      ]

  -- The transaction `i` approves the operation `h`: a list of signatures for it makes the recorded
  -- signers reach the target rate of its protocol.
  pub record Approval (s : System) (i : Instruction) (h : Bytes) : Type 0 where
    pub executor : Pubkey
    pub signatures : List TransmitterSignature
    pub by : i ≡ Instruction.sign_operation executor h signatures
    pub before : OpInfo
    pub after : OpInfo
    pub found : lookup h s.ops ≡ some before
    pub stored : lookup h (step env s i).ops ≡ some after
    pub info : ProtocolInfo
    pub info_found : protocol_account before.op_data.protocol_id s ≡ ok info
    pub signing : Signing env info h signatures before after true

  -- Some transaction of the history does.
  abbrev pub IsApproved : System → List Instruction → Bytes → Type 0
  IsApproved s [] h = ⊥
  IsApproved s (i ∷ is) h = Approval s i h ⊎ IsApproved (step env s i) is h

  abbrev pub IsUnsigned : Bytes → System → Type 0
  IsUnsigned h s = (o : OpInfo) → lookup h s.ops ≡ some o → as_u8 o.status < 2

  Move-Approval :
      (s : System) (i : Instruction) (h : Bytes) {x y : Option OpInfo}
      → Move env s i h x y
      → lookup h s.ops ≡ x
      → lookup h (step env s i).ops ≡ y
      → (o : OpInfo) → y ≡ some o
      → 2 ≤ as_u8 o.status
      → ((p : OpInfo) × (x ≡ some p) × (2 ≤ as_u8 p.status)) ⊎ Approval s i h
  Move-Approval s i h (stays x) found stored o e l = inl (o, e, l)
  Move-Approval s i h (loads x d _ _) found stored o e l =
      absurd (let one = ap (λ (z : OpInfo). as_u8 z.status) (some-injective e) in ground arith)
  Move-Approval s i h (signs x info sigs p p' true by _ info_found _ signing) found stored o e l =
      inr (record {
        executor = x;
        signatures = sigs;
        by = by;
        before = p;
        after = p';
        found = found;
        stored = stored;
        info = info;
        info_found = info_found;
        signing = signing;
      })
  Move-Approval s i h (signs x info sigs p p' false by _ info_found _ signing) found stored o e l =
      inl (
        p,
        refl,
        subst (λ st. 2 ≤ as_u8 st)
            (ap (λ (z : OpInfo). z.status) (sym (some-injective e)) ∙ signing.new_status) l,
      )
  Move-Approval s i h (executes x rest p _ is_signed) found stored o e l =
      inl (p, refl, let two = ap as_u8 is_signed in ground arith)

  IsApproved-by_history :
      (is : List Instruction) (s : System) (h : Bytes) (o : OpInfo)
      → AllHasSlots s
      → lookup h (run env s is).ops ≡ some o
      → 2 ≤ as_u8 o.status
      → ((p : OpInfo) × (lookup h s.ops ≡ some p) × (2 ≤ as_u8 p.status)) ⊎ IsApproved s is h
  unfolding run
  IsApproved-by_history [] s h o slots e l = inl (o, e, l)
  IsApproved-by_history (i ∷ is) s h o slots e l =
      elim (IsApproved-by_history is (step env s i) h o (step-AllHasSlots env s i slots) e l) [
        | inr later ↦ inr (inr later)
        | inl (p, at_p, l_p) ↦
            elim (Move-Approval s i h (step-Move env s i h slots) refl refl p at_p l_p) [
              | inl before ↦ inl before
              | inr now ↦ inr (inl now)
            ]
      ]

  -- Let the signer slots of every operation be packed before a history, and the operation `h` be
  -- neither signed nor executed. If it is signed or executed after the history, one of its
  -- transactions approved it: a `sign_operation` for `h`, where every signer that it added is an
  -- allowed transmitter with a signature over `h` in its list, the recorded signers are
  -- distinct, and they reach the target rate of the operation's protocol as it stood then.
  pub run-IsApproved :
      (is : List Instruction) (s : System) (h : Bytes) (o : OpInfo)
      → AllHasSlots s
      → IsUnsigned h s
      → lookup h (run env s is).ops ≡ some o
      → 2 ≤ as_u8 o.status
      → IsApproved s is h
  run-IsApproved is s h o slots unsigned e l = elim (IsApproved-by_history is s h o slots e l) [
    | inl (p, at_p, l_p) ↦ let u = unsigned p at_p in absurd (omega arith)
    | inr approved ↦ approved
  ]
