-- ===== src/Endpoint/Step/Stuck.antt =====
-- An operation that the early return of `sign_operation` (lib.rs) keeps from being signed.
use photon_solana_contracts.Prelude.{
  ◌≡◌, ◌≢◌, sym, ap, ◌∙◌, subst, Option, some, Bytes, List, [], ◌∷◌, arith,
}
use photon_solana_contracts.Prelude.Assoc.{lookup}
use photon_solana_contracts.Errors.{ok}
use photon_solana_contracts.Environment.{Environment, AccountMeta}
use photon_solana_contracts.ProtocolData.{Pubkey, OpStatus}
use photon_solana_contracts.State.{System, OpInfo, ProtocolInfo}
use photon_solana_contracts.Endpoint.Accounts.{protocol_account}
use photon_solana_contracts.Endpoint.Sign.Consensus.{IsConsensus, signers_of}
use photon_solana_contracts.Endpoint.Execute
use photon_solana_contracts.Endpoint.Execute.Effects.{execute_operation_ok}
use photon_solana_contracts.Endpoint.Step.{Instruction, step, run}
use photon_solana_contracts.Endpoint.Step.Moves.{
  Move, stays, loads, signs, executes, AllHasSlots, step-Move, step-AllHasSlots, some-injective,
}

-- The recorded signers reach the target of the operation's protocol, if it has an account.
abbrev pub IsEnough : OpInfo → System → Type 0
IsEnough op s =
    (info : ProtocolInfo)
    → protocol_account op.op_data.protocol_id s ≡ ok info
    → IsConsensus info (signers_of op)

module _ (env : Environment) where
  -- They do so before each transaction of the history.
  abbrev pub StaysEnough : OpInfo → List Instruction → System → Type 0
  StaysEnough op [] s = Unit
  StaysEnough op (i ∷ is) s = IsEnough op s × StaysEnough op is (step env s i)

  Move-stuck :
      (s : System) (i : Instruction) (h : Bytes) (op : OpInfo) {x y : Option OpInfo}
      → Move env s i h x y
      → x ≡ some op
      → op.status ≡ OpStatus.init
      → IsEnough op s
      → y ≡ some op
  Move-stuck s i h op (stays x) at in_init enough = at
  Move-stuck s i h op (loads x d _ _) at in_init enough = absurd (cc at)
  Move-stuck s i h op (signs x info sigs o o' reached _ _ found few _) at in_init enough =
      let same = some-injective at in
      let reach =
        enough info
          (ap (λ (z : OpInfo). protocol_account z.op_data.protocol_id s) (sym same) ∙ found) in
      let reach_o = subst (λ (z : OpInfo). IsConsensus info (signers_of z)) (sym same) reach in
      absurd (omega arith)
  Move-stuck s i h op (executes x rest o _ is_signed) at in_init enough =
      let same = ap (λ (z : OpInfo). z.status) (some-injective at) in
      absurd (cc (sym is_signed ∙ same ∙ in_init))

  -- Let the signer slots of every operation be packed, and let an operation in state `init` have
  -- recorded signers that reach its protocol's target, as after a removal of transmitters. As
  -- long as they reach it, no history of transactions signs the operation: its account stays as
  -- it is, and no execution of it succeeds, whoever asks for it and with whatever accounts.
  pub run-stuck :
      (is : List Instruction) (s : System) (h : Bytes) (op : OpInfo) (x : Pubkey)
      (rest : List AccountMeta) (t : System)
      → AllHasSlots s
      → lookup h s.ops ≡ some op
      → op.status ≡ OpStatus.init
      → StaysEnough op is s
      → (lookup h (run env s is).ops ≡ some op)
        × (Execute.execute_operation env x h rest (run env s is) ≢ ok t)
  unfolding run
  run-stuck [] s h op x rest t slots at in_init enough = (
    at,
    λ e.
        let ex = execute_operation_ok env x h rest s e in
        let same = ap (λ (z : OpInfo). z.status) (some-injective (sym at ∙ ex.op_found)) in
        absurd (cc (sym in_init ∙ same ∙ ex.is_signed)),
  )
  run-stuck (i ∷ is) s h op x rest t slots at in_init enough =
      run-stuck is (step env s i) h op x rest t (step-AllHasSlots env s i slots)
        (Move-stuck s i h op (step-Move env s i h slots) at in_init enough.0) in_init enough.1
