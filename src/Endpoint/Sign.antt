-- ===== src/Endpoint/Sign.antt =====
-- `sign_operation` (lib.rs): the second stage, in which the transmitters' signatures are counted.
pub mod Loop
pub mod Consensus
pub mod Checks
pub mod Limits
pub mod Reach
use photon_solana_contracts.Prelude.{
  ℕ, ◌*◌, ◌/◌, ◌++◌, Bool, true, false, not, ◌&&◌, ◌||◌, Bytes, List, [], ◌∷◌, length, leb, ltb,
  contains, if◌then◌else◌,
}
use photon_solana_contracts.Errors.{
  Result, ok, custom, op_state_invalid, no_transmitters_allowed, require, ◌>>=◌, ◌>>◌,
}
use photon_solana_contracts.Environment.{Environment}
use photon_solana_contracts.Slots.{store, without}
use photon_solana_contracts.ProtocolData.{
  Pubkey, EthAddress, default_eth_address, TransmitterSignature, OpStatus, status_eq, ecrecover,
}
use photon_solana_contracts.State.{
  System, OpInfo, ProtocolInfo, Event, proposal_approved, transmitters, rate_decimals, max_signers,
  emit,
}
use photon_solana_contracts.Endpoint.Accounts.{
  op_account, protocol_account, check_executor, write_op,
}

-- The share of the allowed transmitters that have signed, in ten-thousandths.
unfoldable pub consensus_rate : ℕ → ℕ → ℕ
consensus_rate signers allowed = (signers * rate_decimals) / allowed

-- The signers so far, and whether the loop broke off on consensus.
abbrev pub Tally : Type 0
Tally = List EthAddress × Bool

-- One recovered signer; `rest` goes on with the signers that it is given.
abbrev count_signer :
    List EthAddress
    → ℕ
    → EthAddress
    → List EthAddress
    → (List EthAddress → Result Tally)
    → Result Tally
count_signer allowed target t signers rest =
    if contains allowed t && not (contains signers t)
    then (if leb target (consensus_rate (length (signers ++ t ∷ [])) (length allowed))
        then ok (signers ++ t ∷ [], true)
        else rest (signers ++ t ∷ []))
    else rest signers

module _ (env : Environment) where
  -- The `for` loop over the signatures.
  unfoldable pub sign_loop :
      List EthAddress → ℕ → Bytes → List TransmitterSignature → List EthAddress → Result Tally
  sign_loop allowed target op_hash [] signers = ok (signers, false)
  sign_loop allowed target op_hash (sig ∷ sigs) signers = do
    t ← ecrecover env op_hash sig
    count_signer allowed target t signers (sign_loop allowed target op_hash sigs)

  -- The body of the handler, on the two accounts that it reads and the one that it writes.
  unfoldable pub sign_op :
      ProtocolInfo → Bytes → List TransmitterSignature → OpInfo → Result (Bool × OpInfo × Bool)
  sign_op info op_hash signatures op = do
    let allowed = transmitters info
    require (ltb 0 (length allowed)) (custom no_transmitters_allowed)
    let signers = without default_eth_address op.unique_signers
    let target = info.consensus_target_rate
    if leb target (consensus_rate (length signers) (length allowed))
        then ok (true, op, false)
        else do
          (signers', reached) ← sign_loop allowed target op_hash signatures signers
          slots ← store max_signers default_eth_address signers'
          let status = if reached then OpStatus.signed else op.status
          ok (reached, record op { status = status; unique_signers = slots }, reached)

  -- `SignOperation`: the accounts, with their constraints, handed to the handler.
  abbrev pub sign_accounts {ℓ} :
      {A : Type ℓ} → Pubkey → Bytes → System → (OpInfo → ProtocolInfo → Result A) → Result A
  sign_accounts executor op_hash s handler = do
    op ← op_account op_hash s
    info ← protocol_account op.op_data.protocol_id s
    check_executor info executor
    require (status_eq op.status OpStatus.init || status_eq op.status OpStatus.signed)
        (custom op_state_invalid)
    handler op info

  -- The instruction's result, and the state. The event is emitted where the loop breaks off.
  unfoldable pub sign_operation :
      Pubkey → Bytes → List TransmitterSignature → System → Result (Bool × System)
  sign_operation executor op_hash signatures s = sign_accounts executor op_hash s λ op info. do
    (result, op', approved) ← sign_op info op_hash signatures op
    let s' = write_op op_hash op' s
    ok (result, (if approved then emit (proposal_approved op_hash executor) s' else s'))
