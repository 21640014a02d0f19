-- ===== src/Endpoint/Proposal.antt =====
-- `propose` (lib.rs).
use photon_solana_contracts.Prelude.{ℕ, Bytes, contains}
use photon_solana_contracts.Errors.{
  Result, ok, custom, proposer_is_not_allowed, require, ◌>>=◌, ◌>>◌,
}
use photon_solana_contracts.ProtocolData.{Pubkey, FunctionSelector, to_bytes}
use photon_solana_contracts.State.{System, Config, Event, emit}
use photon_solana_contracts.Gov.Protocols.{next_nonce}
use photon_solana_contracts.Endpoint.Accounts.{config_account, protocol_account, write_config}

-- `Propose`: the accounts, with their constraints, handed to the handler.
abbrev pub propose_accounts {ℓ} :
    {A : Type ℓ} → Pubkey → Bytes → System → (Config → Result A) → Result A
propose_accounts proposer protocol_id s handler = do
  config ← config_account s
  info ← protocol_account protocol_id s
  require (contains info.proposer_slots proposer) (custom proposer_is_not_allowed)
  handler config

unfoldable pub propose :
    Pubkey → Bytes → ℕ → Bytes → FunctionSelector → Bytes → System → Result System
propose proposer protocol_id dst_chain_id protocol_address function_selector params s =
    propose_accounts proposer protocol_id s λ config. do
      bumped ← next_nonce config.nonce
      selector ← to_bytes function_selector
      let event = Event.propose (record {
        protocol_id = protocol_id;
        nonce = config.nonce;
        dst_chain_id = dst_chain_id;
        protocol_address = protocol_address;
        function_selector = selector;
        params = params;
      })
      ok (emit event (write_config (record config { nonce = bumped }) s))
