-- ===== src/Endpoint/Setup.antt =====
-- `initialize` and `set_admin` (lib.rs).
use photon_solana_contracts.Prelude.{ℕ, true, ◌||◌, Bytes, List, length, bytes_eq, ◌==◌}
use photon_solana_contracts.Errors.{
  Result, ok, custom, anchor, is_not_admin, require_eq_violated, constraint_address, require, ◌>>=◌,
  ◌>>◌,
}
use photon_solana_contracts.Environment.{Environment}
use photon_solana_contracts.Slots.{store}
use photon_solana_contracts.ProtocolData.{
  Pubkey, EthAddress, default_pubkey, default_eth_address, gov_protocol_id,
}
use photon_solana_contracts.State.{System, Config, ProtocolInfo, max_transmitters, max_executors}
use photon_solana_contracts.Endpoint.Accounts.{
  config_account, config_or_init, protocol_or_init, write_config, write_protocol,
}

module _ (env : Environment) where
  open env use {deployer, photon_id}

  -- `Initialize`: the accounts, with their constraints, handed to the handler.
  abbrev pub initialize_accounts {ℓ} :
      {A : Type ℓ} → Pubkey → System → (Config → ProtocolInfo → Result A) → Result A
  initialize_accounts admin s handler = do
    let config = config_or_init s
    let info = protocol_or_init gov_protocol_id s
    require (bytes_eq admin config.admin || bytes_eq admin deployer) (custom is_not_admin)
    handler config info

  unfoldable pub initialize :
      Pubkey → ℕ → Bytes → ℕ → List EthAddress → List Pubkey → System → Result System
  initialize admin eob_chain_id eob_master_smart_contract rate gov_transmitters gov_executors s =
      initialize_accounts admin s λ config info. do
        require (length eob_master_smart_contract == 32) (anchor require_eq_violated)
        transmitter_slots ← store max_transmitters default_eth_address gov_transmitters
        executor_slots ← store max_executors default_pubkey gov_executors
        let config' = record config {
          admin = admin;
          eob_chain_id = eob_chain_id;
          eob_master_smart_contract = eob_master_smart_contract;
        }
        let info' = record info {
          is_init = true;
          protocol_address = photon_id;
          consensus_target_rate = rate;
          transmitter_slots = transmitter_slots;
          executor_slots = executor_slots;
        }
        ok (write_config config' (write_protocol gov_protocol_id info' s))

  -- `SetAdmin`: the accounts, with their constraints, handed to the handler.
  abbrev pub set_admin_accounts {ℓ} :
      {A : Type ℓ} → Pubkey → System → (Config → Result A) → Result A
  set_admin_accounts signer s handler = do
    require (bytes_eq signer deployer) (anchor constraint_address)
    config ← config_account s
    handler config

  unfoldable pub set_admin : Pubkey → Pubkey → System → Result System
  set_admin signer admin s =
      set_admin_accounts signer s λ config. ok (write_config (record config { admin = admin }) s)
