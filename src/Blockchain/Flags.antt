-- ===== src/Blockchain/Flags.antt =====
-- blockchain/flags.py: the flags that are active at a block. Heights and timestamps are natural
-- numbers.
pub mod Activation
use bitcoin_script.Prelude.{
  ℕ, ◌<◌, ◌≤◌, ◌≡◌, refl, Bool, true, false, not, ◌&&◌, bit_and, bit_or, if◌then◌else◌, ◌==◌, leb,
  arith,
}
use bitcoin_script.Engine.Verify.{has_flag}

-- The bitmask values, in the order of the file.
abbrev pub p2sh : ℕ
p2sh = 1

abbrev pub strictenc : ℕ
strictenc = 2

abbrev pub dersig : ℕ
dersig = 4

abbrev pub low_s : ℕ
low_s = 8

abbrev pub nulldummy : ℕ
nulldummy = 16

abbrev pub sigpushonly : ℕ
sigpushonly = 32

abbrev pub minimaldata : ℕ
minimaldata = 64

abbrev pub discourage_upgradable_nops : ℕ
discourage_upgradable_nops = 128

abbrev pub cleanstack : ℕ
cleanstack = 256

abbrev pub checklocktimeverify : ℕ
checklocktimeverify = 512

abbrev pub checksequenceverify : ℕ
checksequenceverify = 1024

abbrev pub witness : ℕ
witness = 2048

abbrev pub minimalif : ℕ
minimalif = 8192

abbrev pub nullfail : ℕ
nullfail = 16384

abbrev pub witness_pubkeytype : ℕ
witness_pubkeytype = 32768

abbrev pub const_scriptcode : ℕ
const_scriptcode = 65536

abbrev pub taproot : ℕ
taproot = 131072

abbrev pub bip16_timestamp : ℕ
bip16_timestamp = 1333238400

abbrev pub bip66_height : ℕ
bip66_height = 363725

abbrev pub bip65_height : ℕ
bip65_height = 388381

abbrev pub bip68_height : ℕ
bip68_height = 419328

abbrev pub segwit_height : ℕ
segwit_height = 481824

abbrev pub taproot_height : ℕ
taproot_height = 709632

abbrev pub segwit_flags : ℕ
segwit_flags = bit_or witness (
    bit_or nulldummy (
      bit_or strictenc (
        bit_or low_s (
          bit_or nullfail (
            bit_or sigpushonly (
              bit_or minimaldata (
                bit_or cleanstack
                  (bit_or discourage_upgradable_nops (bit_or minimalif witness_pubkeytype)))))))))

-- `if active: flags |= added`
abbrev pub activate : Bool → ℕ → ℕ → ℕ
activate true added flags = bit_or flags added
activate false added flags = flags

unfoldable pub flags_for_block : ℕ → ℕ → ℕ
flags_for_block height timestamp =
    let flags = activate (leb bip16_timestamp timestamp) p2sh 0 in
    let flags = activate (leb bip66_height height) dersig flags in
    let flags = activate (leb bip65_height height) checklocktimeverify flags in
    let flags = activate (leb bip68_height height) checksequenceverify flags in
    let flags = activate (leb segwit_height height) segwit_flags flags in
    activate (leb taproot_height height) (bit_or taproot const_scriptcode) flags
