-- ===== src/Lib.antt =====
-- The Photon endpoint for Solana: a model of the on-chain program of a cross-chain messaging layer
-- and the theorems that make it correct.
--
-- The program (programs/entangle-photon-sol/src) lets the executors of a registered protocol bring
-- an operation that comes from another chain in three stages. `load_operation` stores it under its
-- hash, `sign_operation` counts the transmitters' signatures until the protocol's target rate is
-- reached, and `execute_operation` calls the protocol. `propose` emits an event for another chain.
-- The governance protocol is the endpoint itself: its operations arrive like all others and
-- `execute_operation` calls `receive_photon_msg`, which decodes them and changes a protocol's rate,
-- transmitters, executors and proposers.
--
-- Prelude and its children hold lists, byte strings, big-endian numbers and association lists.
-- Errors is error.rs and the result type; an abort of the program (a panic) is a failure like the
-- others, because the runtime reverts the transaction in both cases. Slots models the fixed arrays
-- with a default value for a free slot, which lib.rs and gov.rs share. Environment is the record of
-- parameters for what the program uses and does not implement: hashes, signature recovery, the ABI
-- codec, address derivation, serialization, and the call of other programs. ProtocolData is
-- protocol_data.rs and the number encodings of util.rs. State holds the accounts and events of
-- lib.rs. Gov is gov.rs: Gov/Operation the selectors and calldata, Gov/Protocols the operations on
-- rates and addresses, Gov/Members those on proposers, executors and transmitters, Gov/Dispatch
-- `handle_gov_operation`. Endpoint holds the instructions of lib.rs, one child for each, with the
-- account constraints of its `Accounts` struct in the order in which they are checked;
-- Endpoint/Execute also has `sighash` of util.rs. Endpoint/Step is the program as a transition
-- system: `process` is one instruction, `step` a transaction, and `run` a history; its children
-- follow one operation, or the nonces of the proposals, through a history (Step/Execution the three
-- stages in a row, Step/Stuck the early return of `sign_operation`). Toy is the concrete
-- instance that the tests and witnesses use.
--
-- Transactor is a part of the off-chain side: Transactor/IxCompiler is ix_compiler.rs and
-- Transactor/RoundRobin is round_robin.rs of solana-transactor/src, and Transactor/SendAll is
-- `send_all_instructions` of transactor.rs (SendAll/Units the compute units), with the Solana SDK as
-- a parameter.
--
-- Services is the rest of the off-chain side. Services/Logs is
-- transmitter-module/src/common/solana_logs/parse_logs.rs, with a description of logs by the calls
-- that write them (Logs/Written). Services/Data is transmitter-common/src/data.rs, set against
-- ProtocolData in Data/Agreement. Services/OpRegistry is the registry of last_block_updater.rs
-- (transmitter-module/src/executor_app), as a list in the order of the block numbers, set against
-- the history of its events in OpRegistry/Pending. Services/Bundles is what operation_manager.rs
-- sends for an operation, with extension_manager.rs; a bundle is an instruction of Endpoint/Step,
-- which Bundles/Delivery runs. Services/Manager is the loop `process_operation`: each element of
-- its list of rounds is what one pass learns from outside (the balance check, the account that was
-- read, the result of sending), and Manager/Chain takes the accounts from a history of
-- Endpoint/Step. Services/Retro is solana_retro_reader.rs, whose inner loop runs on fuel: more than
-- the number of transactions of the ledger is enough. Services/Listener is event_processor.rs, the
-- two solana_logs_processor.rs and rabbitmq_publisher.rs of the listener. Services/GovExtension is
-- gov_extension.rs of transmitter-protocol-extensions, and GovExtension/Serving sets it against the
-- accounts of `receive_photon_msg`.
--
-- Machine integers are natural numbers; where the source can overflow a check stands in the model,
-- and a u64 read from calldata aborts above its range as `as_u64` does. The loop of the executor,
-- which has no bound, runs over a list of passes, and Manager/Rounds and Manager/Chain say how many
-- are enough; the pages of the retro reader run on fuel; all other loops are structural recursion.
-- An account whose address is derived is found by its last seed, which assumes that derived
-- addresses do not collide. Not modelled: account sizes and rent, log messages, the suspension of
-- the executor while its balance is low, and what only moves data between brokers, databases and
-- nodes.
pub mod Prelude
pub mod Errors
pub mod Slots
pub mod Environment
pub mod ProtocolData
pub mod State
pub mod Gov
pub mod Endpoint
pub mod Transactor
pub mod Services
pub mod Toy
