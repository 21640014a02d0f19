-- ===== src/State.antt =====
-- The accounts of the endpoint program (`Config`, `ProtocolInfo`, `OpInfo` of
-- programs/entangle-photon-sol/src/lib.rs), the events that it emits, and the program's whole state.
-- A derived address is represented by its last seed: the config account, the protocol infos by
-- protocol id, the operations by operation hash.
use photon_solana_contracts.Prelude.{ℕ, Bool, false, Option, List, [], ◌∷◌, ◌++◌, Bytes, replicate}
use photon_solana_contracts.Slots.{active}
use photon_solana_contracts.ProtocolData.{
  Pubkey, EthAddress, default_pubkey, default_eth_address, OpStatus, OperationData, dummy,
}

abbrev pub max_transmitters : ℕ
max_transmitters = 20

abbrev pub max_executors : ℕ
max_executors = 20

abbrev pub max_proposers : ℕ
max_proposers = 20

abbrev pub rate_decimals : ℕ
rate_decimals = 10000

-- The length of `unique_signers: [EthAddress; 16]`.
abbrev pub max_signers : ℕ
max_signers = 16

pub record Config : Type 0 where
  pub admin : Pubkey
  pub eob_chain_id : ℕ
  pub eob_master_smart_contract : Bytes
  pub nonce : ℕ

abbrev pub default_config : Config
default_config = record {
  admin = default_pubkey;
  eob_chain_id = 0;
  eob_master_smart_contract = replicate 32 0;
  nonce = 0;
}

pub record ProtocolInfo : Type 0 where
  pub is_init : Bool
  pub consensus_target_rate : ℕ
  pub protocol_address : Pubkey
  pub transmitter_slots : List EthAddress
  pub executor_slots : List Pubkey
  pub proposer_slots : List Pubkey

abbrev pub default_protocol_info : ProtocolInfo
default_protocol_info = record {
  is_init = false;
  consensus_target_rate = 0;
  protocol_address = default_pubkey;
  transmitter_slots = replicate max_transmitters default_eth_address;
  executor_slots = replicate max_executors default_pubkey;
  proposer_slots = replicate max_proposers default_pubkey;
}

-- `ProtocolInfo::transmitters()`, `executors()` and `proposers()`
unfoldable pub transmitters : ProtocolInfo → List EthAddress
transmitters p = active default_eth_address p.transmitter_slots

unfoldable pub executors : ProtocolInfo → List Pubkey
executors p = active default_pubkey p.executor_slots

unfoldable pub proposers : ProtocolInfo → List Pubkey
proposers p = active default_pubkey p.proposer_slots

pub record OpInfo : Type 0 where
  pub status : OpStatus
  pub unique_signers : List EthAddress
  pub op_data : OperationData

-- The account as `init` creates it.
abbrev pub default_op_info : OpInfo
default_op_info = record {
  status = OpStatus.none;
  unique_signers = replicate max_signers default_eth_address;
  op_data = record {
    protocol_id = [];
    meta = replicate 32 0;
    src_chain_id = 0;
    src_block_number = 0;
    src_op_tx_id = [];
    nonce = 0;
    dest_chain_id = 0;
    protocol_addr = default_pubkey;
    function_selector = dummy;
    params = [];
    reserved = [];
  };
}

pub record ProposeEvent : Type 0 where
  pub protocol_id : Bytes
  pub nonce : ℕ
  pub dst_chain_id : ℕ
  pub protocol_address : Bytes
  pub function_selector : Bytes
  pub params : Bytes

pub data Event : Type 0 where
  proposal_loaded : Bytes → Pubkey → Event
  proposal_approved : Bytes → Pubkey → Event
  proposal_executed : Bytes → Pubkey → Event
  propose : ProposeEvent → Event

-- `none` for the config account before it is initialized. Events stand in the order of emission.
pub record System : Type 0 where
  pub config : Option Config
  pub protocols : List (Bytes × ProtocolInfo)
  pub ops : List (Bytes × OpInfo)
  pub events : List Event

-- `emit!`
abbrev pub emit : Event → System → System
emit e s = record s { events = s.events ++ e ∷ [] }
