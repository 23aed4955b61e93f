-- ===== src/Cheatcode.antt =====
-- Cheatcodes (`src/evm/cheatcode/`).
pub mod Prank
pub mod Inspector
