-- ===== src/Gov/Dispatch/Rates.antt =====
-- Which governance operations touch the consensus rate, and the range that they leave it in.
use photon_solana_contracts.Prelude.{ℕ, ◌≤◌, ◌<◌, ◌≡◌, arith}
use photon_solana_contracts.Errors.{ok}
use photon_solana_contracts.Environment.{Environment}
use photon_solana_contracts.ProtocolData.{OperationData}
use photon_solana_contracts.State.{Config, ProtocolInfo, rate_decimals}
use photon_solana_contracts.Gov.Operation.{GovOperation}
use photon_solana_contracts.Gov.Protocols.{
  add_allowed_protocol, add_allowed_protocol_address, remove_allowed_protocol_address,
  set_consensus_target_rate, check_consensus_target_rate,
}
use photon_solana_contracts.Gov.Members.{
  store_executors, store_proposers, store_transmitters, add_executor_key, remove_executor_key,
  add_proposer_key, remove_proposer_key, add_transmitters_impl, remove_transmitters_impl,
  add_executor, remove_executor, add_allowed_proposer_address, remove_allowed_proposer_address,
  add_transmitters, remove_transmitters, update_transmitters,
}
use photon_solana_contracts.Gov.Dispatch.{GovResult, run_gov_operation}

-- A rate that a share of signers can reach, and that no empty set of signers has.
abbrev pub IsRate : ℕ → Type 0
IsRate rate = (0 < rate) × (rate ≤ rate_decimals)

pub check_consensus_target_rate-IsRate :
    (rate : ℕ) → check_consensus_target_rate rate ≡ ok tt → IsRate rate
unfolding check_consensus_target_rate
check_consensus_target_rate-IsRate rate h = ground arith

module _ (env : Environment) where
  -- Every governance operation leaves a protocol with a consensus rate above zero and at most
  -- 10000, if it had such a rate before.
  pub run_gov_operation-IsRate :
      (g : GovOperation) (config : Config) (info : ProtocolInfo) (op : OperationData)
      {r : GovResult}
      → IsRate info.consensus_target_rate
      → run_gov_operation env g config info op ≡ ok r
      → IsRate r.0.consensus_target_rate
  unfolding run_gov_operation add_allowed_protocol add_allowed_protocol_address
      remove_allowed_protocol_address set_consensus_target_rate check_consensus_target_rate
      store_executors store_proposers store_transmitters add_executor_key remove_executor_key
      add_proposer_key remove_proposer_key add_transmitters_impl remove_transmitters_impl
      add_executor remove_executor add_allowed_proposer_address remove_allowed_proposer_address
      add_transmitters remove_transmitters update_transmitters
  run_gov_operation-IsRate GovOperation.add_allowed_protocol config info op h e = ground arith
  run_gov_operation-IsRate _ config info op h e = ground arith
