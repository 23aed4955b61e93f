-- ===== src/Forkdb.antt =====
-- Access to a forked chain's RPC (`src/evm/forkdb/`).
pub mod Limiter
