-- ===== src/Transactor.antt =====
-- The off-chain sending of transactions (solana-transactor/src): packing instructions into messages,
-- and the pool whose members take turns.
pub mod RoundRobin
pub mod SendAll
pub mod IxCompiler
pub mod Tests
