-- ===== src/Endpoint.antt =====
-- The instructions of the endpoint program (`photon` in programs/entangle-photon-sol/src/lib.rs),
-- each with the constraints of its accounts. An instruction takes the keys that sign it and its
-- arguments. An account whose address is derived is found by its seed, so account lists that a
-- caller fills with other accounts, which Anchor refuses, do not appear.
pub mod Accounts
pub mod Setup
pub mod Load
pub mod Sign
pub mod Receive
pub mod Proposal
pub mod Execute
pub mod Step
pub mod Tests
