-- ===== src/Engine.antt =====
-- The Python interpreter, src/bitcoin_script/engine/.
pub mod Stack
pub mod Outcome
pub mod Number
pub mod Operations
pub mod Library
pub mod Run
pub mod Verify
pub mod Flags
mod Examples
