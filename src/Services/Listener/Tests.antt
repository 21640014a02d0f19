-- ===== src/Services/Listener/Tests.antt =====
-- A proposal of the toy protocol, and a publisher with a broker that refuses once.
use photon_solana_contracts.Prelude.{
  ℕ, ◌+◌, ◌≡◌, refl, true, false, Bytes, List, [], ◌∷◌, ◌++◌, none, some, contains, bytes_eq,
  replicate,
}
use photon_solana_contracts.Prelude.Assoc.{lookup}
use photon_solana_contracts.Errors.{ok}
use photon_solana_contracts.ProtocolData
use photon_solana_contracts.ProtocolData.{
  FunctionSelector, by_code, to_bytes, default_pubkey, converted,
}
use photon_solana_contracts.ProtocolData.Selector.{reads_back}
use photon_solana_contracts.Slots.Laws.{padded}
use photon_solana_contracts.Gov.Protocols.{next_nonce}
use photon_solana_contracts.State.{System, ProtocolInfo, Event, ProposeEvent, default_config, emit}
use photon_solana_contracts.Endpoint.Accounts.{
  config_account, protocol_account, check_seed, write_config,
}
use photon_solana_contracts.Endpoint.Proposal.{propose}
use photon_solana_contracts.Toy.{env, initial, executor, program, protocol_id, info}
use photon_solana_contracts.Services.{success}
use photon_solana_contracts.Services.Data.{op_data_evm, chain_operation, default_meta}
use photon_solana_contracts.Services.Listener.{
  SignatureText, Propose, on_propose, Publisher, PublisherEvent, arrives, publishes, reconnects,
  published, refused, publisher_run,
}
use photon_solana_contracts.Services.Listener.Origin.{on_propose-propose}
use photon_solana_contracts.Services.Listener.Publishing.{
  unpublished, arrivals, publisher_run-arrivals,
}

abbrev texts : SignatureText
texts = record { from_str = λ text. some text; to_string = λ signature. signature }

abbrev proposing_info : ProtocolInfo
proposing_info = record info { proposer_slots = padded 20 default_pubkey (executor ∷ []) }

abbrev proposing : System
proposing = record initial { protocols = (protocol_id, proposing_info) ∷ [] }

abbrev selector : FunctionSelector
selector = by_code (1 ∷ 2 ∷ [])

abbrev event : ProposeEvent
event = record {
  protocol_id = protocol_id;
  nonce = default_config.nonce;
  dst_chain_id = 33133;
  protocol_address = program;
  function_selector = 0 ∷ 2 ∷ 1 ∷ 2 ∷ [];
  params = 8 ∷ [];
}

abbrev proposed : System
proposed =
    emit (Event.propose event)
      (write_config (record default_config { nonce = default_config.nonce + 1 }) proposing)

proposes : propose executor protocol_id 33133 program selector (8 ∷ []) proposing ≡ ok proposed
unfolding propose config_account protocol_account check_seed lookup bytes_eq contains next_nonce
    to_bytes
proposes = refl

abbrev text : Bytes
text = replicate 64 5

on_propose-propose_example :
    (e : ProposeEvent) × (m : Propose) × (c : ProtocolData.OperationData) × (proposed.events
      ≡ proposing.events ++ Event.propose e ∷ [])
    × (on_propose env.network texts (protocol_id ∷ []) e text 12 true ≡ success (m ∷ []))
    × (chain_operation env m.operation_data ≡ converted c)
    × (c.function_selector ≡ selector)
    × (c.params ≡ 8 ∷ [])
    × (ProtocolData.op_data_evm c ≡ ok (op_data_evm m.operation_data))
unfolding contains bytes_eq reads_back
on_propose-propose_example =
    on_propose-propose env texts (protocol_id ∷ []) executor protocol_id 33133 program selector
      (8 ∷ []) proposing text text 12 true proposes refl refl refl refl refl

abbrev message : ℕ → Propose
message slot = record {
  need_check = false;
  latest_block_id = text;
  operation_data = record {
    protocol_id = protocol_id;
    meta = default_meta;
    src_chain_id = 1;
    src_block_number = slot;
    src_op_tx_id = text;
    nonce = 0;
    dest_chain_id = 33133;
    protocol_addr = program;
    function_selector = [];
    params = [];
    reserved = [];
  };
}

abbrev events : List PublisherEvent
events =
    arrives (message 1)
    ∷ arrives (message 2)
    ∷ publishes refused
    ∷ reconnects
    ∷ arrives (message 3)
    ∷ publishes published
    ∷ publishes published
    ∷ []

abbrev idle : Publisher
idle = record { waiting = []; buffered_propose = none }

publisher_run-arrivals_example :
    (publisher_run events idle).0 ++ unpublished (publisher_run events idle).1
    ≡ unpublished idle ++ arrivals events
publisher_run-arrivals_example =
    publisher_run-arrivals events idle ((λ e. cc e), ((λ e. cc e), ((λ e. cc e), tt)))
