-- ===== src/Endpoint/Accounts.antt =====
-- How the accounts of an instruction are found (`#[derive(Accounts)]` in lib.rs).
use photon_solana_contracts.Prelude.{Bytes, none, some, length, leb, contains}
use photon_solana_contracts.Prelude.Assoc.{lookup, insert}
use photon_solana_contracts.Errors.{
  Result, anchor, custom, account_not_initialized, max_seed_length_exceeded,
  executor_is_not_allowed, ok_or, require, ◌>>◌,
}
use photon_solana_contracts.ProtocolData.{Pubkey}
use photon_solana_contracts.State.{
  System, Config, ProtocolInfo, OpInfo, default_config, default_protocol_info,
}

-- A seed has at most 32 bytes.
unfoldable pub check_seed : Bytes → Result (Unit {0})
check_seed seed = require (leb (length seed) 32) (anchor max_seed_length_exceeded)

-- `seeds = [ROOT, b"CONFIG"]`
unfoldable pub config_account : System → Result Config
config_account s = ok_or s.config (anchor account_not_initialized)

-- `seeds = [ROOT, b"PROTOCOL", protocol_id]`
unfoldable pub protocol_account : Bytes → System → Result ProtocolInfo
protocol_account protocol_id s = do
  check_seed protocol_id
  ok_or (lookup protocol_id s.protocols) (anchor account_not_initialized)

-- `seeds = [ROOT, b"OP", op_hash]`
unfoldable pub op_account : Bytes → System → Result OpInfo
op_account op_hash s = do
  check_seed op_hash
  ok_or (lookup op_hash s.ops) (anchor account_not_initialized)

-- `init_if_needed`
abbrev pub config_or_init : System → Config
config_or_init s = elim s.config [ none ↦ default_config | some c ↦ c ]

abbrev pub protocol_or_init : Bytes → System → ProtocolInfo
protocol_or_init protocol_id s = elim (lookup protocol_id s.protocols) [
  | none ↦ default_protocol_info
  | some p ↦ p
]

-- What a mutable account holds at the end of the instruction.
abbrev pub write_config : Config → System → System
write_config c s = record s { config = some c }

abbrev pub write_protocol : Bytes → ProtocolInfo → System → System
write_protocol protocol_id p s = record s { protocols = insert protocol_id p s.protocols }

abbrev pub write_op : Bytes → OpInfo → System → System
write_op op_hash o s = record s { ops = insert op_hash o s.ops }

-- `constraint = protocol_info.executors.contains(&executor.key())`: over all slots of the array.
unfoldable pub check_executor : ProtocolInfo → Pubkey → Result (Unit {0})
check_executor p executor =
    require (contains p.executor_slots executor) (custom executor_is_not_allowed)
