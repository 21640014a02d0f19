-- ===== src/Gov.antt =====
-- programs/entangle-photon-sol/src/gov.rs: the governance operations. `Operation` reads selectors
pub mod Operation
pub mod Protocols
pub mod Members
pub mod Validity
pub mod Dispatch
pub mod Tests
