-- ===== src/Endpoint/Receive.antt =====
-- `receive_photon_msg` (lib.rs): the governance protocol's own handler. `call_authority` is a
-- signer of which nothing else is checked.
pub mod Effects
use photon_solana_contracts.Prelude.{ℕ, Bool, ◌&&◌, Bytes, Option, none, some, bytes_eq, contains}
use photon_solana_contracts.Errors.{
  Result, ok, custom, op_state_invalid, invalid_endpoint, require, ◌>>=◌, ◌>>◌,
}
use photon_solana_contracts.Environment.{Environment}
use photon_solana_contracts.ProtocolData.{Pubkey, OpStatus, status_eq, gov_protocol_id}
use photon_solana_contracts.State.{System, OpInfo, Config, ProtocolInfo, ProposeEvent, Event, emit}
use photon_solana_contracts.Gov.Operation.{target_protocol}
use photon_solana_contracts.Gov.Dispatch.{handle_gov_operation}
use photon_solana_contracts.Endpoint.Accounts.{
  check_seed, op_account, protocol_account, protocol_or_init, config_or_init, check_executor,
  write_config, write_protocol,
}

abbrev pub emit_propose : Option ProposeEvent → System → System
emit_propose none s = s
emit_propose (some e) s = emit (Event.propose e) s

module _ (env : Environment) where
  open env use {photon_id}

  -- `ReceivePhotonMsg`: the accounts, with their constraints, handed to the handler: the operation,
  -- the config, and the target protocol with its id.
  abbrev pub receive_accounts {ℓ} :
      {A : Type ℓ}
      → Pubkey
      → Bytes
      → System
      → (OpInfo → Config → Bytes → ProtocolInfo → Result A)
      → Result A
  receive_accounts executor op_hash s handler = do
    op ← op_account op_hash s
    gov_info ← protocol_account gov_protocol_id s
    target ← target_protocol env op.op_data.function_selector op.op_data.params
    check_seed target
    check_executor gov_info executor
    require (status_eq op.status OpStatus.signed) (custom op_state_invalid)
    handler op (config_or_init s) target (protocol_or_init target s)

  unfoldable pub receive_photon_msg :
      Pubkey → Pubkey → Bytes → Bytes → Bytes → System → Result System
  receive_photon_msg executor call_authority op_hash code params s =
      receive_accounts executor op_hash s λ op old_config target old_info. do
        let op_data = op.op_data
        require
            (bytes_eq op_data.protocol_id gov_protocol_id
              && bytes_eq op_data.protocol_addr photon_id)
            (custom invalid_endpoint)
        (info, config, event) ← handle_gov_operation env old_config old_info code op_data
        ok (emit_propose event (write_config config (write_protocol target info s)))
