-- ===== src/Endpoint/Sign/Limits.antt =====
-- `sign_operation` at its limit: the sixteen signer slots.
use photon_solana_contracts.Prelude.{
  ℕ, ◌*◌, ◌/◌, ◌≤◌, ◌<◌, ◌≡◌, ap, ◌∙◌, inl, inr, Bool, false, Bool-cases, Bytes, List, length,
  arith, if◌then◌else◌,
}
use native.Mathlib.Nat.{le-div_iff_mul-le, div-mul-le_self}
use photon_solana_contracts.Errors.{ok}
use photon_solana_contracts.Environment.{Environment}
use photon_solana_contracts.ProtocolData.{TransmitterSignature, OpStatus}
use photon_solana_contracts.State.{ProtocolInfo, OpInfo, transmitters, max_signers, rate_decimals}
use photon_solana_contracts.Endpoint.Sign.{consensus_rate, sign_op}
use photon_solana_contracts.Endpoint.Sign.Consensus.{HasSlots, signers_of, sign_op-effect}

div_mono : (a b n : ℕ) → 0 < n → a ≤ b → a / n ≤ b / n
div_mono a b n pos h = (le-div_iff_mul-le pos).1 (let k = div-mul-le_self a n in omega arith)

pub consensus_rate_mono : (a b n : ℕ) → 0 < n → a ≤ b → consensus_rate a n ≤ consensus_rate b n
unfolding consensus_rate
consensus_rate_mono a b n pos h =
    div_mono (a * rate_decimals) (b * rate_decimals) n pos (omega arith)

-- Where sixteen of the allowed transmitters do not reach the target rate, no list of signatures ever
-- makes the handler answer that there is consensus, for the account holds sixteen signers at most.
pub sign_op-unreachable :
    (env : Environment) (info : ProtocolInfo) (op_hash : Bytes) (sigs : List TransmitterSignature)
    (op : OpInfo) {op' : OpInfo} {answer approved : Bool}
    → HasSlots op
    → consensus_rate max_signers (length (transmitters info)) < info.consensus_target_rate
    → sign_op env info op_hash sigs op ≡ ok (answer, op', approved)
    → (answer ≡ false) × (op'.status ≡ op.status)
sign_op-unreachable env info op_hash sigs op {op'} {answer} p few e =
    let (pos, cases) = sign_op-effect env info op_hash sigs op p e in
    elim cases [
      | inl (enough, _, _, _) ↦
          let m =
            consensus_rate_mono (length (signers_of op)) max_signers (length (transmitters info))
              pos p.bounded in
          absurd (omega arith)
      | inr (_, s, _) ↦ elim (Bool-cases answer) [
        | inl yes_reached ↦
            let m =
              consensus_rate_mono (length (signers_of op')) max_signers (length (transmitters info))
                pos s.slots.bounded in
            let enough = s.in_consensus.0 yes_reached in absurd (omega arith)
        | inr not_reached ↦ (
          not_reached,
          s.new_status ∙ ap (λ b. if b then OpStatus.signed else op.status) not_reached,
        )
      ]
    ]
