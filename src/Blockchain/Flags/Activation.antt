-- ===== src/Blockchain/Flags/Activation.antt =====
-- Which flags of blockchain/flags.py are active when.
use bitcoin_script.Prelude.{ℕ, ◌≤◌, ◌≡◌, Bool, bit_and, bit_or, if◌then◌else◌, leb, arith}
use bitcoin_script.Blockchain.Flags.{
  p2sh, dersig, checklocktimeverify, checksequenceverify, taproot, const_scriptcode, segwit_flags,
  bip16_timestamp, bip66_height, bip65_height, bip68_height, segwit_height, taproot_height,
  flags_for_block,
}

-- The soft forks of the file, the flags that each brings, and when it is active.
pub data SoftFork : Type 0 where
  bip16 bip66 bip65 bip68 segwit bip341 : SoftFork

abbrev pub flags_of : SoftFork → ℕ
flags_of bip16 = p2sh
flags_of bip66 = dersig
flags_of bip65 = checklocktimeverify
flags_of bip68 = checksequenceverify
flags_of segwit = segwit_flags
flags_of bip341 = bit_or taproot const_scriptcode

abbrev pub is_active : SoftFork → ℕ → ℕ → Bool
is_active bip16 height timestamp = leb bip16_timestamp timestamp
is_active bip66 height timestamp = leb bip66_height height
is_active bip65 height timestamp = leb bip65_height height
is_active bip68 height timestamp = leb bip68_height height
is_active segwit height timestamp = leb segwit_height height
is_active bip341 height timestamp = leb taproot_height height

-- Of the flags of each soft fork, flags_for_block sets all where the timestamp, for BIP 16, or the
-- height, for the others, has reached the activation, and none before.
pub flags_for_block-SoftFork :
    (fork : SoftFork) (height timestamp : ℕ)
    → bit_and (flags_for_block height timestamp) (flags_of fork)
      ≡ (if is_active fork height timestamp then flags_of fork else 0)
unfolding flags_for_block
flags_for_block-SoftFork bip16 height timestamp = ground arith
flags_for_block-SoftFork bip66 height timestamp = ground arith
flags_for_block-SoftFork bip65 height timestamp = ground arith
flags_for_block-SoftFork bip68 height timestamp = ground arith
flags_for_block-SoftFork segwit height timestamp = ground arith
flags_for_block-SoftFork bip341 height timestamp = ground arith

-- A block that is neither lower nor earlier than another has all the flags of the other.
pub flags_for_block_mono :
    (height timestamp later_height later_timestamp : ℕ)
    → height ≤ later_height
    → timestamp ≤ later_timestamp
    → bit_and (flags_for_block height timestamp) (flags_for_block later_height later_timestamp)
      ≡ flags_for_block height timestamp
unfolding flags_for_block
flags_for_block_mono height timestamp later_height later_timestamp h t = ground arith
