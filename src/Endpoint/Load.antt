-- ===== src/Endpoint/Load.antt =====
-- `load_operation` (lib.rs): the first of the three stages.
pub mod Effects
use photon_solana_contracts.Prelude.{
  ℕ, Bool, not, ◌&&◌, Bytes, Option, none, some, length, replicate, bytes_eq, ◌==◌,
}
use photon_solana_contracts.Prelude.Assoc.{lookup}
use photon_solana_contracts.Errors.{
  Result, ok, err, custom, anchor, account_already_in_use, op_state_invalid,
  cached_op_hash_mismatch, op_is_not_for_this_chain, protocol_address_mismatch, invalid_op_data,
  require, ◌>>=◌, ◌>>◌,
}
use photon_solana_contracts.Environment.{Environment}
use photon_solana_contracts.ProtocolData.{
  Pubkey, OperationData, OpStatus, status_eq, op_hash_with_message,
}
use photon_solana_contracts.State.{
  System, ProtocolInfo, OpInfo, proposal_loaded, default_op_info, emit,
}
use photon_solana_contracts.Gov.Protocols.{solana_chain_id}
use photon_solana_contracts.Endpoint.Accounts.{
  check_seed, protocol_account, config_account, check_executor, write_op,
}

-- `init` of an account: refused where the account exists.
unfoldable pub init_op : Bytes → System → Result OpInfo
init_op op_hash s = do
  check_seed op_hash
  elim (lookup op_hash s.ops) [
    | none ↦ ok default_op_info
    | some o ↦ err (anchor account_already_in_use)
  ]

-- `LoadOperation`: the accounts, with their constraints, handed to the handler.
abbrev pub load_accounts {ℓ} :
    {A : Type ℓ}
    → Pubkey
    → OperationData
    → Bytes
    → System
    → (ProtocolInfo → OpInfo → Result A)
    → Result A
load_accounts executor op_data op_hash_cached s handler = do
  info ← protocol_account op_data.protocol_id s
  op ← init_op op_hash_cached s
  config ← config_account s
  check_executor info executor
  require (status_eq op.status OpStatus.none) (custom op_state_invalid)
  handler info op

module _ (env : Environment) where
  open env use {network}

  unfoldable pub load_operation : Pubkey → OperationData → Bytes → System → Result System
  load_operation executor op_data op_hash_cached s =
      load_accounts executor op_data op_hash_cached s λ info op. do
        op_hash ← op_hash_with_message env op_data
        require (bytes_eq op_hash op_hash_cached) (custom cached_op_hash_mismatch)
        require (op_data.dest_chain_id == solana_chain_id network) (custom op_is_not_for_this_chain)
        require (bytes_eq info.protocol_address op_data.protocol_addr)
            (custom protocol_address_mismatch)
        require
            (not (bytes_eq op_data.protocol_id (replicate 32 0))
              && length op_data.protocol_id == 32)
            (custom invalid_op_data)
        ok (
            emit (proposal_loaded op_hash executor)
              (write_op op_hash_cached (record op { op_data = op_data; status = OpStatus.init }) s))
