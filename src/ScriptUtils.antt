-- ===== src/ScriptUtils.antt =====
-- The shared helpers of src/bitcoin_script/script_utils.py.
pub mod Codec
pub mod Walk
pub mod Tokens
pub mod Refinement
pub mod Paths
mod Examples
