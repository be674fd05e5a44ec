-- ===== src/Blockchain/Taproot.antt =====
-- The BIP 341 signature hash of blockchain/verifier.py. `none` is an exception. SHA-256 is a parameter.
pub mod Size
use bitcoin_script.Prelude.{
  ℕ, zero, suc, ◌+◌, ◌*◌, Bool, true, false, not, ◌&&◌, ◌||◌, Option, none, some, List, [], ◌∷◌,
  ◌++◌, Bytes, get_elem?, bit_and, bit_or, if◌then◌else◌, ◌==◌,
}
use bitcoin_script.Prelude.Int.{ℤ}
use bitcoin_script.Prelude.Little.{to_bytes_le}
use bitcoin_script.Blockchain.Transaction.{TxIn, TxOut, Transaction}
use bitcoin_script.Blockchain.Pack.{pack_signed, sized, both, joined}

-- The hash of bytes whose making may raise.
unfoldable pub hashed : (Bytes → Bytes) → Option Bytes → Option Bytes
hashed sha256 none = none
hashed sha256 (some msg) = some (sha256 msg)

-- `_tagged_hash`, of a tag as its bytes.
unfoldable pub tagged_hash : (Bytes → Bytes) → Bytes → Bytes → Bytes
tagged_hash sha256 tag msg = sha256 (sha256 tag ++ (sha256 tag ++ msg))

abbrev pub base_type : ℕ → ℕ
base_type hash_type = if hash_type == 0 then 1 else bit_and hash_type 0x1f

abbrev pub anyone_can_pay : ℕ → Bool
anyone_can_pay hash_type = not (bit_and hash_type 0x80 == 0)

abbrev pub pack_u32 : ℕ → Option Bytes
pack_u32 n = to_bytes_le 4 n

abbrev pub pack_i64 : ℤ → Option Bytes
pack_i64 n = pack_signed 8 n

unfoldable pub outpoint : TxIn → Option Bytes
outpoint vin = both (some vin.prevout_hash) (pack_u32 vin.prevout_n)

unfoldable pub output : TxOut → Option Bytes
output vout = both (pack_i64 vout.n_value) (sized vout.script_pubkey)

-- The loops that put the four lists and the outputs together.
unfoldable pub concat_map {ℓ} : {A : Type ℓ} → (A → Option Bytes) → List A → Option Bytes
concat_map f [] = some []
concat_map f (x ∷ xs) = both (f x) (concat_map f xs)

-- The arguments of `_taproot_sighash`.
pub record Signing : Type 0 where
  pub tx : Transaction
  pub input_index : ℕ
  pub hash_type : ℕ
  pub ext_flag : ℕ
  pub prevout_scripts : List Bytes
  pub prevout_amounts : List ℤ
  pub annex : Option Bytes
  pub tapleaf_hash : Option Bytes
  pub codesep_pos : ℕ

-- `b"\x00" * n`
abbrev pub zeros : ℕ → Bytes
zeros zero = []
zeros (suc n) = 0 ∷ zeros n

-- `value if test else b""`
abbrev pub when_bytes : Bool → Option Bytes → Option Bytes
when_bytes true b = b
when_bytes false b = some []

abbrev pub has_annex : Option Bytes → ℕ
has_annex none = 0
has_annex (some annex) = 1

-- `tx.vin[input_index]` and the two other lists: an IndexError where they are too short.
unfoldable pub own_input : Option TxIn → Option ℤ → Option Bytes → Option Bytes
own_input (some vin) (some amount) (some spk) =
    joined (outpoint vin ∷ pack_i64 amount ∷ sized spk ∷ pack_u32 vin.n_sequence ∷ [])
own_input _ _ _ = none

-- The part of a script-path spend; the hash of the leaf is asserted to be there.
unfoldable pub script_path : Option Bytes → ℕ → Option Bytes
script_path none codesep_pos = none
script_path (some tapleaf_hash) codesep_pos =
    joined (some tapleaf_hash ∷ some (0x00 ∷ []) ∷ pack_u32 codesep_pos ∷ [])

-- "TapSighash"
abbrev pub tap_sighash : Bytes
tap_sighash = 0x54 ∷ 0x61 ∷ 0x70 ∷ 0x53 ∷ 0x69 ∷ 0x67 ∷ 0x68 ∷ 0x61 ∷ 0x73 ∷ 0x68 ∷ []

module _ (sha256 : Bytes → Bytes) where
  unfoldable pub annex_part : Option Bytes → Option Bytes
  annex_part none = some []
  annex_part (some annex) = hashed sha256 (sized annex)

  unfoldable pub all_inputs : Signing → Option Bytes
  all_inputs s = joined (
      hashed sha256 (concat_map outpoint s.tx.vin)
      ∷ hashed sha256 (concat_map pack_i64 s.prevout_amounts)
      ∷ hashed sha256 (concat_map sized s.prevout_scripts)
      ∷ hashed sha256 (concat_map (λ (vin : TxIn). pack_u32 vin.n_sequence) s.tx.vin)
      ∷ [])

  -- SIGHASH_SINGLE: 32 zero bytes where there is no matching output.
  unfoldable pub single_output : Option TxOut → Option Bytes
  single_output none = some (zeros 32)
  single_output (some vout) = hashed sha256 (output vout)

  -- `msg`
  unfoldable pub taproot_message : Signing → Option Bytes
  taproot_message s = joined (
      some (0x00 ∷ [])
      ∷ to_bytes_le 1 s.hash_type
      ∷ pack_signed 4 s.tx.n_version
      ∷ pack_u32 s.tx.n_lock_time
      ∷ when_bytes (not (anyone_can_pay s.hash_type)) (all_inputs s)
      ∷ when_bytes (not (base_type s.hash_type == 2) && not (base_type s.hash_type == 3))
          (hashed sha256 (concat_map output s.tx.vout))
      ∷ to_bytes_le 1 (bit_or (s.ext_flag * 2) (has_annex s.annex))
      ∷ (if anyone_can_pay s.hash_type
          then own_input (get_elem? s.tx.vin s.input_index)
              (get_elem? s.prevout_amounts s.input_index)
              (get_elem? s.prevout_scripts s.input_index)
          else pack_u32 s.input_index)
      ∷ annex_part s.annex
      ∷ when_bytes (base_type s.hash_type == 3) (single_output (get_elem? s.tx.vout s.input_index))
      ∷ when_bytes (s.ext_flag == 1) (script_path s.tapleaf_hash s.codesep_pos)
      ∷ [])

  -- `_taproot_sighash`
  unfoldable pub taproot_sighash : Signing → Option Bytes
  taproot_sighash s = elim (taproot_message s) [
    | none ↦ none
    | some msg ↦ some (tagged_hash sha256 tap_sighash msg)
  ]
