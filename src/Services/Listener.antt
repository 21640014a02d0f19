-- ===== src/Services/Listener.antt =====
-- What the services make of the endpoint's events: `on_logs` (transmitter-module/src/common/
-- solana_logs/event_processor.rs), the two event processors (solana_logs_processor.rs of listener_app
-- and of watcher_app) and the publisher of the proposals (rabbitmq_publisher.rs of listener_app).
-- The text form of a signature is a parameter.
pub mod Origin
pub mod Publishing
mod Tests
use photon_solana_contracts.Prelude.{
  ℕ, ◌-◌, Bool, true, false, not, Bytes, List, [], ◌∷◌, ◌++◌, Option, none, some, length, take,
  replicate, contains, ◌==◌, if◌then◌else◌,
}
use photon_solana_contracts.Environment.{Network}
use photon_solana_contracts.Gov.Protocols.{solana_chain_id}
use photon_solana_contracts.State.{ProposeEvent}
use photon_solana_contracts.Services.{
  Answer, success, failure, abort, ServiceError, malformed_data, solana_parse_logs, extension_mng,
  extension,
}
use photon_solana_contracts.Services.Logs.{LogReader, parse_logs}
use photon_solana_contracts.Services.Data.{OperationData, default_meta}
use photon_solana_contracts.Services.Retro.{LogsBunch}

-- `Signature::from_str`, and `to_string` of the result.
pub record SignatureText : Type 0 where
  pub from_str : Bytes → Option Bytes
  pub to_string : Bytes → Bytes

-- `Propose`
pub record Propose : Type 0 where
  pub need_check : Bool
  pub latest_block_id : Bytes
  pub operation_data : OperationData

-- A protocol's name in 32 bytes: cut, or filled with zeros.
unfoldable pub allowed_protocol : Bytes → Bytes
allowed_protocol name = take 32 name ++ replicate (32 - length name) 0

-- `ProposalEventProcessor::on_event`: what it sends.
module _ (network : Network) (texts : SignatureText) (allowed_protocols : List Bytes) where
  open texts use {from_str, to_string}

  unfoldable pub propose_of : ProposeEvent → Bytes → ℕ → Bool → Propose
  propose_of event signature slot need_check = record {
    need_check = need_check;
    latest_block_id = to_string signature;
    operation_data = record {
      protocol_id = event.protocol_id;
      meta = default_meta;
      src_chain_id = solana_chain_id network;
      src_block_number = slot;
      src_op_tx_id = signature;
      nonce = event.nonce;
      dest_chain_id = event.dst_chain_id;
      protocol_addr = event.protocol_address;
      function_selector = event.function_selector;
      params = event.params;
      reserved = [];
    };
  }

  unfoldable pub on_propose : ProposeEvent → Bytes → ℕ → Bool → Answer (List Propose)
  on_propose event signature slot need_check =
      if not (contains allowed_protocols event.protocol_id)
      then success []
      else if not (length event.protocol_id == 32)
      then success []
      else elim (from_str signature) [
        | none ↦ success []
        | some parsed ↦ success (propose_of event parsed slot need_check ∷ [])
      ]

-- `ProposalExecuted` of the program and of the services.
pub record ExecutedEvent : Type 0 where
  pub op_hash : Bytes
  pub executor : Bytes

pub record ProposalExecuted : Type 0 where
  pub need_check : Bool
  pub last_watched_block : Bytes
  pub op_hash : Bytes
  pub executor : Bytes

-- `OperationExecutedEventProcessor::on_event`
unfoldable pub on_executed : ExecutedEvent → Bytes → ℕ → Bool → Answer (List ProposalExecuted)
on_executed event signature slot need_check =
    if length event.op_hash == 32
    then success (
        record {
          need_check = need_check;
          last_watched_block = signature;
          op_hash = event.op_hash;
          executor = event.executor;
        }
        ∷ [])
    else failure abort

-- `EventProcessor::on_logs`: a log that cannot be parsed is reported and skipped; an abort is not
-- caught.
module _ {M : Type 0} (reader : LogReader) (program_id : Bytes)
    (on_event : reader.T → Bytes → ℕ → Bool → Answer (List M)) where
  unfoldable pub on_events : List reader.T → LogsBunch → Answer (List M)
  on_events [] bunch = success []
  on_events (event ∷ events) bunch =
      elim (on_event event bunch.tx_signature bunch.slot bunch.need_check) [
        | failure reason ↦ failure reason
        | success sent ↦ elim (on_events events bunch) [
          | failure reason ↦ failure reason
          | success more ↦ success (sent ++ more)
        ]
      ]

  unfoldable pub skipped : ServiceError → Answer (List M)
  skipped abort = failure abort
  skipped solana_parse_logs = success []
  skipped malformed_data = success []
  skipped extension_mng = success []
  skipped extension = success []

  unfoldable pub on_logs : LogsBunch → Answer (List M)
  on_logs bunch = elim (parse_logs reader bunch.logs program_id) [
    | failure reason ↦ skipped reason
    | success events ↦ on_events events bunch
  ]

-- `RabbitmqPublisher`: what waits in the channel, and what was taken and could not be published.
pub record Publisher : Type 0 where
  pub waiting : List Propose
  pub buffered_propose : Option Propose

-- `propose_to_progress`
unfoldable pub propose_to_progress : Publisher → Option (Propose × Publisher)
propose_to_progress publisher = elim publisher.buffered_propose [
  | some propose ↦ some (propose, record publisher { buffered_propose = none })
  | none ↦ elim publisher.waiting [
    | [] ↦ none
    | propose ∷ waiting ↦ some (propose, record publisher { waiting = waiting })
  ]
]

-- How a broker answers to a publication; the encoding of the message may fail before.
pub data BrokerAnswer : Type 0 where
  published refused not_encoded : BrokerAnswer

-- `publish_propose`: what reaches the broker, and the publisher.
unfoldable pub publish_propose : BrokerAnswer → Propose → Publisher → List Propose × Publisher
publish_propose published propose publisher = (propose ∷ [], publisher)
publish_propose refused propose publisher =
    ([], record publisher { buffered_propose = some propose })
publish_propose not_encoded propose publisher = ([], publisher)

-- What happens in the loop of `publish_to_rabbitmq`: a proposal arrives in the channel, or the next
-- one is published; a reconnection changes nothing here.
pub data PublisherEvent : Type 0 where
  arrives : Propose → PublisherEvent
  publishes : BrokerAnswer → PublisherEvent
  reconnects : PublisherEvent

unfoldable pub publisher_step : PublisherEvent → Publisher → List Propose × Publisher
publisher_step (arrives propose) publisher =
    ([], record publisher { waiting = publisher.waiting ++ propose ∷ [] })
publisher_step reconnects publisher = ([], publisher)
publisher_step (publishes answer) publisher = elim (propose_to_progress publisher) [
  | none ↦ ([], publisher)
  | some taken ↦ publish_propose answer taken.0 taken.1
]

unfoldable pub publisher_run : List PublisherEvent → Publisher → List Propose × Publisher
publisher_run [] publisher = ([], publisher)
publisher_run (event ∷ events) publisher =
    let (sent, next) = publisher_step event publisher in
    let (more, last) = publisher_run events next in (sent ++ more, last)
