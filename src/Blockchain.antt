-- ===== src/Blockchain.antt =====
-- The activation of consensus rules, src/bitcoin_script/blockchain/.
pub mod Flags
pub mod Pack
pub mod Transaction
pub mod Taproot
pub mod Sighash
pub mod Utxo
pub mod Tasks
pub mod VerifyBlock
pub mod Chain
pub mod BlockFile
pub mod Downloader
pub mod Examples
