-- ===== src/Endpoint/Sign/Consensus.antt =====
-- The body of `sign_operation`: which operations become signed, and by whom.
use photon_solana_contracts.Prelude.{
  All-append, ◌≤◌, ◌<◌, ◌≡◌, ◌≢◌, ◌↔◌, refl, sym, ap, ◌∙◌, subst, subst₂, ◌⊎◌, inl, inr, Bool, true,
  false, Bytes, List, [], ◌∷◌, ◌++◌, length, leb, ltb, contains, All, arith, bytes_eq_iff, bytes_eq,
  if◌then◌else◌, if-elim, Bool-cases,
}
use photon_solana_contracts.Errors.{
  Result, ok, custom, no_transmitters_allowed, require, >>=-elim, ok-injective,
}
use photon_solana_contracts.Environment.{Environment}
use photon_solana_contracts.Slots.{store, without, active}
use photon_solana_contracts.Slots.Laws.{active-All}
use photon_solana_contracts.Slots.Packed.{IsPacked, without-IsPacked, store-IsPacked}
use photon_solana_contracts.ProtocolData.{
  EthAddress, default_eth_address, TransmitterSignature, OpStatus,
}
use photon_solana_contracts.State.{ProtocolInfo, OpInfo, transmitters, max_signers}
use photon_solana_contracts.Endpoint.Sign.{consensus_rate, sign_loop, sign_op}
use photon_solana_contracts.Endpoint.Sign.Loop.{IsSigner, Counted, sign_loop-Counted}

-- The transmitters that have signed the operation.
abbrev pub signers_of : OpInfo → List EthAddress
signers_of op = active default_eth_address op.unique_signers

abbrev pub HasSlots : OpInfo → Type 0
HasSlots op = IsPacked max_signers default_eth_address op.unique_signers

-- The signers reach the protocol's target.
abbrev pub IsConsensus : ProtocolInfo → List EthAddress → Type 0
IsConsensus info signers =
    info.consensus_target_rate ≤ consensus_rate (length signers) (length (transmitters info))

-- A member of an array's used part is not the default value.
contains-All :
    (P : Bytes → Type 0) (xs : List Bytes) (a : Bytes) → All P xs → contains xs a ≡ true → P a
unfolding contains
contains-All P [] a h e = absurd (cc e)
contains-All P (x ∷ xs) a h e = elim (Bool-cases (bytes_eq x a)) [
  | inl same ↦ subst P ((bytes_eq_iff x a).0 same) h.0
  | inr other ↦ contains-All P xs a h.1 (ground arith)
]

module _ (env : Environment) (info : ProtocolInfo) (op_hash : Bytes) where
  -- What the loop has done to the account.
  pub record Signing (sigs : List TransmitterSignature) (op op' : OpInfo) (reached : Bool)
      : Type 0 where
    pub added : List EthAddress
    pub signers : signers_of op' ≡ signers_of op ++ added
    pub genuine :
        All (IsSigner env (transmitters info) info.consensus_target_rate op_hash sigs) added
    pub slots : HasSlots op'
    pub same_data : op'.op_data ≡ op.op_data
    pub new_status : op'.status ≡ (if reached then OpStatus.signed else op.status)
    pub in_consensus : (reached ≡ true) ↔ IsConsensus info (signers_of op')

  IsSigner-ne :
      (sigs : List TransmitterSignature) (ts : List EthAddress)
      → All (IsSigner env (transmitters info) info.consensus_target_rate op_hash sigs) ts
      → All (λ k. k ≢ default_eth_address) ts
  unfolding transmitters
  IsSigner-ne sigs [] h = tt
  IsSigner-ne sigs (t ∷ ts) h = (
    contains-All (λ k. k ≢ default_eth_address) (transmitters info) t
        (active-All default_eth_address info.transmitter_slots) h.0.0,
    IsSigner-ne sigs ts h.1,
  )

  signed_slots :
      (sigs : List TransmitterSignature) (op : OpInfo) (out : List EthAddress) (reached : Bool)
      {arr : List EthAddress}
      → HasSlots op
      → Counted env
          (transmitters info)
          info.consensus_target_rate
          op_hash
          sigs
          (signers_of op)
          out
          reached
      → store max_signers default_eth_address out ≡ ok arr
      → IsPacked max_signers default_eth_address arr × (active default_eth_address arr ≡ out)
  signed_slots sigs op out reached p c e =
      store-IsPacked max_signers default_eth_address out e
        (subst (All (λ k. k ≢ default_eth_address)) (sym c.extends) (
          All-append _ (signers_of op) c.added (active-All default_eth_address op.unique_signers)
            (IsSigner-ne sigs c.added c.signed)))
        (c.stays_distinct p.distinct)

  -- From below the target, the loop's answer is whether the signers reach it.
  Counted-IsConsensus :
      (sigs : List TransmitterSignature) (signers out : List EthAddress) (reached : Bool)
      → Counted env (transmitters info) info.consensus_target_rate op_hash sigs signers out reached
      → consensus_rate (length signers) (length (transmitters info)) < info.consensus_target_rate
      → (reached ≡ true) ↔ IsConsensus info out
  Counted-IsConsensus sigs signers out reached c few = (
    c.in_consensus,
    λ enough. elim (Bool-cases reached) [
      | inl yes_reached ↦ yes_reached
      | inr no_reached ↦ let low = c.below no_reached few in absurd (omega arith)
    ],
  )

  -- What happens where the recorded signers do not reach the target yet.
  signed_op :
      (sigs : List TransmitterSignature) (op : OpInfo) (out : List EthAddress) (reached : Bool)
      {arr : List EthAddress}
      → HasSlots op
      → Counted env
          (transmitters info)
          info.consensus_target_rate
          op_hash
          sigs
          (signers_of op)
          out
          reached
      → store max_signers default_eth_address out ≡ ok arr
      → consensus_rate (length (signers_of op)) (length (transmitters info))
        < info.consensus_target_rate
      → Signing sigs op
          (record op {
            status = if reached then OpStatus.signed else op.status;
            unique_signers = arr;
          })
          reached
  signed_op sigs op out reached p c e few =
      let (packed, same) = signed_slots sigs op out reached p c e in
      record {
        added = c.added;
        signers = same ∙ c.extends;
        genuine = c.signed;
        slots = packed;
        same_data = refl;
        new_status = refl;
        in_consensus =
            subst (λ xs. (reached ≡ true) ↔ IsConsensus info xs) (sym same)
              (Counted-IsConsensus sigs (signers_of op) out reached c few);
      }

  stopped :
      (sigs : List TransmitterSignature) (op op' : OpInfo) (out : List EthAddress)
      (reached answer approved : Bool) {arr : List EthAddress}
      → HasSlots op
      → sign_loop env (transmitters info) info.consensus_target_rate op_hash sigs (signers_of op)
        ≡ ok (out, reached)
      → store max_signers default_eth_address out ≡ ok arr
      → ◌≡◌ {A = Result (Bool × OpInfo × Bool)}
          (ok (
            reached,
            record op {
              status = if reached then OpStatus.signed else op.status;
              unique_signers = arr;
            },
            reached,
          ))
          (ok (answer, op', approved))
      → consensus_rate (length (signers_of op)) (length (transmitters info))
        < info.consensus_target_rate
      → Signing sigs op op' answer × (approved ≡ answer)
  stopped sigs op op' out reached answer approved p looped stored done few =
      let c =
        sign_loop-Counted env (transmitters info) info.consensus_target_rate op_hash sigs
          (signers_of op) out reached looped in
      let same = ok-injective done in
      (
        subst₂ (Signing sigs op) (ap (λ (t : Bool × OpInfo × Bool). t.1) same)
            (ap (λ (t : Bool × OpInfo × Bool). t.0) same)
            (signed_op sigs op out reached p c stored few),
        sym (ap (λ (t : Bool × OpInfo × Bool). t.2) same)
            ∙ ap (λ (t : Bool × OpInfo × Bool). t.0) same,
      )

  -- The handler's body on an account whose signer slots are packed. The protocol has a
  -- transmitter. Either the recorded signers already reach the target, and then the account is
  -- left as it is, its status included, and the answer is `true`. Or they do not, and the
  -- account gets new signers, each an allowed transmitter with a signature in the list and none
  -- twice; its status is set to `signed` where the answer is `true` and stays otherwise, its
  -- data stay, and the answer is `true` exactly when the signers now reach the target.
  pub sign_op-effect :
      (sigs : List TransmitterSignature) (op : OpInfo) {op' : OpInfo} {answer approved : Bool}
      → HasSlots op
      → sign_op env info op_hash sigs op ≡ ok (answer, op', approved)
      → (0 < length (transmitters info))
        × ((IsConsensus info (signers_of op) × (op' ≡ op) × (answer ≡ true) × (approved ≡ false))
            ⊎ ((consensus_rate (length (signers_of op)) (length (transmitters info))
                  < info.consensus_target_rate)
                × Signing sigs op op' answer
                × (approved ≡ answer)))
  unfolding sign_op
  sign_op-effect sigs op {op'} {answer} {approved} p e =
      >>=-elim (require (ltb 0 (length (transmitters info))) (custom no_transmitters_allowed)) _ e
        λ _ some_allowed e1.
          let known = without-IsPacked p in
          let same_test =
            ap
              (λ xs.
                leb info.consensus_target_rate
                  (consensus_rate (length xs) (length (transmitters info))))
              known in
          (
            ground arith,
            if-elim _ e1
                (λ enough done. inl (
                  let h = sym same_test ∙ enough in ground arith,
                  ground arith,
                  ground arith,
                  ground arith,
                ))
                (λ few more.
                  let below : consensus_rate (length (signers_of op)) (length (transmitters info))
                      < info.consensus_target_rate =
                    (let h = sym same_test ∙ few in ground arith) in
                  >>=-elim
                    (sign_loop env (transmitters info) info.consensus_target_rate op_hash sigs
                      (without default_eth_address op.unique_signers))
                    _ more
                    λ tally looped e2.
                      >>=-elim (store max_signers default_eth_address tally.0) _ e2
                        λ arr stored done.
                          let (signing, same) =
                            stopped sigs op op' tally.0 tally.1 answer approved p
                              (subst
                                (λ xs.
                                  sign_loop env (transmitters info) info.consensus_target_rate
                                    op_hash sigs xs
                                  ≡ ok tally)
                                known looped)
                              stored done below in
                          inr (below, signing, same)),
          )
