-- ===== src/Endpoint/Sign/Checks.antt =====
-- What `sign_operation` has checked of its accounts when it succeeds.
use photon_solana_contracts.Prelude.{
  ◌≡◌, refl, sym, ap, subst, ◌⊎◌, inl, inr, Bool, true, ◌||◌, Bytes, List, contains, arith,
  if◌then◌else◌,
}
use photon_solana_contracts.Errors.{ok, custom, op_state_invalid, require, >>=-elim, ok-injective}
use photon_solana_contracts.Environment.{Environment}
use photon_solana_contracts.ProtocolData.{Pubkey, TransmitterSignature, OpStatus, status_eq}
use photon_solana_contracts.State.{System, ProtocolInfo, OpInfo, proposal_approved, emit}
use photon_solana_contracts.Endpoint.Accounts.{
  op_account, protocol_account, check_executor, write_op,
}
use photon_solana_contracts.Endpoint.Sign.{sign_op, sign_operation}

status_cases :
    (st : OpStatus)
    → (status_eq st OpStatus.init || status_eq st OpStatus.signed) ≡ true
    → (st ≡ OpStatus.init) ⊎ (st ≡ OpStatus.signed)
status_cases st e =
    elim st
        as (λ x.
          (status_eq x OpStatus.init || status_eq x OpStatus.signed) ≡ true
          → (x ≡ OpStatus.init) ⊎ (x ≡ OpStatus.signed)) [
            | OpStatus.none ↦ λ h. absurd (cc h)
            | OpStatus.init ↦ λ h. inl refl
            | OpStatus.signed ↦ λ h. inr refl
            | OpStatus.executed ↦ λ h. absurd (cc h)
          ]
      e

-- The whole instruction.
pub sign_operation_ok :
    (env : Environment) (executor : Pubkey) (op_hash : Bytes) (sigs : List TransmitterSignature)
    (s : System) {answer : Bool} {t : System}
    → sign_operation env executor op_hash sigs s ≡ ok (answer, t)
    → (op : OpInfo) × (info : ProtocolInfo) × (op' : OpInfo) × (approved : Bool) × (op_account
          op_hash s
        ≡ ok op)
      × (protocol_account op.op_data.protocol_id s ≡ ok info)
      × (contains info.executor_slots executor ≡ true)
      × ((op.status ≡ OpStatus.init) ⊎ (op.status ≡ OpStatus.signed))
      × (sign_op env info op_hash sigs op ≡ ok (answer, op', approved))
      × (t ≡ (
          if approved
          then emit (proposal_approved op_hash executor) (write_op op_hash op' s)
          else write_op op_hash op' s))
unfolding sign_operation check_executor
sign_operation_ok env executor op_hash sigs s {answer} {t} e =
    >>=-elim (op_account op_hash s) _ e λ op found e1.
      >>=-elim (protocol_account op.op_data.protocol_id s) _ e1 λ info found_info e2.
        >>=-elim (check_executor info executor) _ e2 λ _ allowed e3.
          >>=-elim
            (require (status_eq op.status OpStatus.init || status_eq op.status OpStatus.signed)
              (custom op_state_invalid))
            _ e3
            λ _ state e4. >>=-elim (sign_op env info op_hash sigs op) _ e4 λ r done e5.
              let same = ok-injective e5 in
              let answer_eq = ap (λ (p : Bool × System). p.0) same in
              (
                op,
                info,
                r.1,
                r.2,
                found,
                found_info,
                ground arith,
                status_cases op.status (ground arith),
                subst (λ b. sign_op env info op_hash sigs op ≡ ok (b, r.1, r.2)) answer_eq done,
                sym (ap (λ (p : Bool × System). p.1) same),
              )
