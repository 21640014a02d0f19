-- ===== src/Endpoint/Execute.antt =====
-- `execute_operation` (lib.rs): the third stage, which calls the protocol. `sighash` is from util.rs
-- and the payloads are `PhotonMsg` and `PhotonMsgWithSelector` of interface.rs.
pub mod Effects
use photon_solana_contracts.Prelude.{
  ℕ, Bool, true, false, not, ◌++◌, Bytes, List, [], ◌∷◌, Option, none, some, take, filter_b, map,
  bytes_eq, if◌then◌else◌,
}
use photon_solana_contracts.Errors.{
  Result, ok, err, custom, anchor, cpi, panic, op_state_invalid, protocol_address_not_provided,
  instruction_fallback_not_found, require, ◌>>=◌, ◌>>◌,
}
use photon_solana_contracts.Environment.{Environment, AccountMeta, CpiInstruction}
use photon_solana_contracts.ProtocolData.{
  Pubkey, OpStatus, status_eq, OperationData, FunctionSelector, by_code, by_name, dummy,
}
use photon_solana_contracts.State.{System, OpInfo, proposal_executed, emit}
use photon_solana_contracts.Endpoint.Accounts.{
  op_account, protocol_account, check_executor, write_op,
}
use photon_solana_contracts.Endpoint.Receive.{receive_photon_msg}

-- b"r0", b"OP", b"CALL_AUTHORITY", "global:" and "receive_photon_msg"
abbrev pub root : Bytes
root = b'r' ∷ b'0' ∷ []

abbrev pub op_seed : Bytes
op_seed = b'O' ∷ b'P' ∷ []

abbrev pub call_authority_seed : Bytes
call_authority_seed =
    b'C' ∷ b'A' ∷ b'L' ∷ b'L' ∷ b'_' ∷ b'A' ∷ b'U' ∷ b'T' ∷ b'H' ∷ b'O' ∷ b'R' ∷ b'I' ∷ b'T' ∷ b'Y'
    ∷ []

abbrev pub global : Bytes
global = b'g' ∷ b'l' ∷ b'o' ∷ b'b' ∷ b'a' ∷ b'l' ∷ []

abbrev pub receive_photon_msg_name : Bytes
receive_photon_msg_name =
    b'r' ∷ b'e' ∷ b'c' ∷ b'e' ∷ b'i' ∷ b'v' ∷ b'e' ∷ b'_' ∷ b'p' ∷ b'h' ∷ b'o' ∷ b't' ∷ b'o' ∷ b'n'
    ∷ b'_' ∷ b'm' ∷ b's' ∷ b'g' ∷ []

-- The first of the remaining accounts must be the called program.
unfoldable pub program_account : Pubkey → List AccountMeta → Result AccountMeta
program_account addr [] = err (custom protocol_address_not_provided)
program_account addr (a ∷ rest) =
    if bytes_eq a.key addr then ok a else err (custom protocol_address_not_provided)

abbrev pub rest_of : List AccountMeta → List AccountMeta
rest_of [] = []
rest_of (a ∷ rest) = rest

module _ (env : Environment) where
  open env use {sha256, borsh, find_program_address, photon_id, invoke}

  unfoldable pub sighash : Bytes → Bytes → Bytes
  sighash namespace name = take 8 (sha256 (namespace ++ b':' ∷ name))

  -- The method's name and the serialized payload.
  unfoldable pub call_of : OperationData → Bytes → Result (Bytes × Bytes)
  call_of op_data op_hash = elim op_data.function_selector [
    | by_code selector ↦
        ok (receive_photon_msg_name, borsh (op_hash ∷ selector ∷ op_data.params ∷ []))
    | by_name name ↦ ok (name, borsh (op_data.params ∷ []))
    | dummy ↦ err panic
  ]

  -- With the rights that `ExecuteOperation` gives its accounts, and the signature of `invoke_signed`.
  abbrev pub call_accounts :
      Pubkey → Bytes → OperationData → AccountMeta → List AccountMeta → List AccountMeta
  call_accounts executor op_hash op_data program remaining =
      program
      ∷ record { key = executor; is_signer = true; is_writable = true }
      ∷ record {
        key = find_program_address (root ∷ call_authority_seed ∷ op_data.protocol_id ∷ []);
        is_signer = true;
        is_writable = false;
      }
      ∷ record {
        key = find_program_address (root ∷ op_seed ∷ op_hash ∷ []);
        is_signer = false;
        is_writable = true;
      }
      ∷ rest_of remaining

  unfoldable pub build_call :
      Pubkey → Bytes → OperationData → List AccountMeta → Result CpiInstruction
  build_call executor op_hash op_data remaining = do
    program ← program_account op_data.protocol_addr remaining
    let accounts = call_accounts executor op_hash op_data program remaining
    (method, payload) ← call_of op_data op_hash
    ok (record {
      program_id = op_data.protocol_addr;
      metas = filter_b (λ a. not (bytes_eq a.key op_data.protocol_addr)) accounts;
      ix_data = sighash global method ++ payload;
    })

  -- The endpoint called by itself. By code it runs `receive_photon_msg`. By name it fails: the
  -- accounts begin with the executor, the call authority and the operation info, which only
  -- `receive_photon_msg` takes, and a payload of the parameters alone lacks two of its arguments.
  unfoldable pub self_call : Pubkey → Bytes → OperationData → System → Result System
  self_call executor op_hash op_data s = elim op_data.function_selector [
    | by_code selector ↦
        receive_photon_msg env executor
          (find_program_address (root ∷ call_authority_seed ∷ op_data.protocol_id ∷ [])) op_hash
          selector op_data.params s
    | by_name name ↦ err (anchor instruction_fallback_not_found)
    | dummy ↦ err panic
  ]

  -- `invoke_signed`: another program cannot write the endpoint's accounts.
  unfoldable pub invoke_signed :
      Pubkey → Bytes → OperationData → CpiInstruction → System → Result System
  invoke_signed executor op_hash op_data ix s =
      if bytes_eq op_data.protocol_addr photon_id
      then self_call executor op_hash op_data s
      else elim (invoke ix) [ none ↦ ok s | some code ↦ err (cpi code) ]

  -- `ExecuteOperation`: the accounts, with their constraints, handed to the handler.
  abbrev pub execute_accounts {ℓ} :
      {A : Type ℓ} → Pubkey → Bytes → System → (OpInfo → Result A) → Result A
  execute_accounts executor op_hash s handler = do
    op ← op_account op_hash s
    info ← protocol_account op.op_data.protocol_id s
    check_executor info executor
    require (status_eq op.status OpStatus.signed) (custom op_state_invalid)
    handler op

  unfoldable pub execute_operation : Pubkey → Bytes → List AccountMeta → System → Result System
  execute_operation executor op_hash remaining s = execute_accounts executor op_hash s λ op. do
    ix ← build_call executor op_hash op.op_data remaining
    s' ← invoke_signed executor op_hash op.op_data ix s
    ok (
        emit (proposal_executed op_hash executor)
          (write_op op_hash (record op { status = OpStatus.executed }) s'))
