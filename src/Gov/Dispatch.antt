-- ===== src/Gov/Dispatch.antt =====
-- `handle_gov_operation` (gov.rs).
pub mod Invariant
pub mod Rates
use photon_solana_contracts.Prelude.{Bytes, Option, none, some, List, []}
use photon_solana_contracts.Errors.{
  Result, ok, err, custom, invalid_method_selector, ok_or, ◌>>=◌, ◌>>◌,
}
use photon_solana_contracts.Environment.{Environment}
use photon_solana_contracts.ProtocolData.{OperationData}
use photon_solana_contracts.State.{Config, ProtocolInfo, ProposeEvent}
use photon_solana_contracts.Gov.Operation.{GovOperation, gov_operation_of}
use photon_solana_contracts.Gov.Protocols.{
  add_allowed_protocol, add_allowed_protocol_address, remove_allowed_protocol_address,
  set_consensus_target_rate,
}
use photon_solana_contracts.Gov.Members.{
  add_allowed_proposer_address, remove_allowed_proposer_address, add_executor, remove_executor,
  add_transmitters, remove_transmitters, update_transmitters,
}

-- The protocol info and the config afterwards, and the event of the one operation that emits.
abbrev pub GovResult : Type 0
GovResult = ProtocolInfo × Config × Option ProposeEvent

-- For the operations that change the protocol info alone.
abbrev pub info_only : Config → Result ProtocolInfo → Result GovResult
info_only config r = r >>= λ info. ok (info, config, none)

module _ (env : Environment) where
  unfoldable pub run_gov_operation :
      GovOperation → Config → ProtocolInfo → OperationData → Result GovResult
  run_gov_operation GovOperation.add_allowed_protocol config info op = do
    (info', config', event) ← add_allowed_protocol env op.params info config
    ok (info', config', some event)
  run_gov_operation GovOperation.add_allowed_protocol_address config info op =
      info_only config (add_allowed_protocol_address env op.params info)
  run_gov_operation GovOperation.remove_allowed_protocol_address config info op =
      info_only config (ok (remove_allowed_protocol_address info))
  run_gov_operation GovOperation.add_allowed_proposer_address config info op =
      info_only config (add_allowed_proposer_address env op.params info)
  run_gov_operation GovOperation.remove_allowed_proposer_address config info op =
      info_only config (remove_allowed_proposer_address env op.params info)
  run_gov_operation GovOperation.add_executor config info op =
      info_only config (add_executor env op.params info)
  run_gov_operation GovOperation.remove_executor config info op =
      info_only config (remove_executor env op.params op.protocol_id info)
  run_gov_operation GovOperation.add_transmitters config info op =
      info_only config (add_transmitters env op.params info)
  run_gov_operation GovOperation.remove_transmitters config info op =
      info_only config (remove_transmitters env op.params info)
  run_gov_operation GovOperation.update_transmitters config info op =
      info_only config (update_transmitters env op.params info)
  run_gov_operation GovOperation.set_consensus_target_rate config info op =
      info_only config (set_consensus_target_rate env op.params info)

  unfoldable pub handle_gov_operation :
      Config → ProtocolInfo → Bytes → OperationData → Result GovResult
  handle_gov_operation config info code op = do
    g ← ok_or (gov_operation_of code) (custom invalid_method_selector)
    run_gov_operation g config info op
