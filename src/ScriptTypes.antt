-- ===== src/ScriptTypes.antt =====
-- The templates of src/bitcoin_script/script_types/ and their classification.
pub mod P2pk
pub mod P2pkh
pub mod P2sh
pub mod P2wpkh
pub mod P2wsh
pub mod P2tr
pub mod Multisig
pub mod Classifier
pub mod RoundTrip
pub mod Agreement
pub mod Classes
pub mod Keys
mod Examples
