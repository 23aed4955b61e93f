-- ===== src/Coverage.antt =====
-- Bytecode coverage (`src/evm/coverage/`).
pub mod Edge
pub mod Exec
pub mod Inspector
pub mod Shared
