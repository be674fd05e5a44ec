-- ===== src/Engine/Operations.antt =====
-- The opcode handlers (engine/operations.py), by the groups of that file.
pub mod StackOps
pub mod ArithOps
pub mod CryptoOps
pub mod Dispatch
pub mod Shuffle
pub mod Numeric
pub mod Multisig
pub mod Indexed
