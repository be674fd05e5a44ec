-- ===== src/Blockchain/Examples.antt =====
-- The theorems on the activation of flags at two blocks.
mod Files
pub mod Loading
mod Downloading
mod Signing
pub mod Verifying
use bitcoin_script.Prelude.{◌≡◌, bit_and, arith}
use bitcoin_script.Blockchain.Flags.{flags_for_block, segwit_flags}
use bitcoin_script.Blockchain.Flags.Activation.{SoftFork, flags_for_block-SoftFork}

flags_for_block-SoftFork_example :
    bit_and (flags_for_block 481824 1503539857) segwit_flags ≡ segwit_flags
flags_for_block-SoftFork_example = flags_for_block-SoftFork SoftFork.segwit 481824 1503539857
