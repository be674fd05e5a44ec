-- ===== src/ScriptUtils/Paths.antt =====
-- script_utils.py: classify_script, the spending path of an input. Its strings are constructors.
pub mod Classes
use bitcoin_script.Prelude.{
  ℕ, zero, suc, ◌+◌, Bool, true, false, not, ◌&&◌, ◌||◌, Option, none, some, List, [], ◌∷◌, reverse,
  Bytes, length, byte_at, if◌then◌else◌, ◌==◌, leb,
}
use bitcoin_script.ScriptUtils.Codec.{is_witness_program, is_p2sh}
use bitcoin_script.ScriptUtils.Walk.{extract_last_push}

pub data SpendPath : Type 0 where
  p2pkh p2pk p2pk_uncompressed p2sh p2sh_p2wpkh p2sh_p2wsh p2wpkh p2wsh : SpendPath
  p2tr_keypath p2tr_scriptpath p2tr_empty other : SpendPath
  witness_version : ℕ → SpendPath

-- How many witness items are left without the annex: `w[-1][:1] == b"\x50"` is tested on the last of
-- two or more items. The items are read from the end.
unfoldable pub without_annex : List Bytes → ℕ
without_annex [] = 0
without_annex (item ∷ []) = 1
without_annex ([] ∷ item ∷ rest) = 2 + length rest
without_annex ((b ∷ annex) ∷ item ∷ rest) = if b == 0x50 then 1 + length rest else 2 + length rest

unfoldable pub taproot_path : List Bytes → SpendPath
taproot_path witness =
    let n = without_annex (reverse witness) in
    if n == 1
    then SpendPath.p2tr_keypath
    else (if leb 2 n then SpendPath.p2tr_scriptpath else SpendPath.p2tr_empty)

unfoldable pub witness_path : ℕ → Bytes → List Bytes → SpendPath
witness_path version program witness =
    if (version == 0) && (length program == 20)
    then SpendPath.p2wpkh
    else (if (version == 0) && (length program == 32)
        then SpendPath.p2wsh
        else (if (version == 1) && (length program == 32)
            then taproot_path witness
            else SpendPath.witness_version version))

unfoldable pub nested_path : Option (ℕ × Bytes) → SpendPath
nested_path none = SpendPath.p2sh
nested_path (some (version, program)) =
    if (version == 0) && (length program == 20)
    then SpendPath.p2sh_p2wpkh
    else (if (version == 0) && (length program == 32) then SpendPath.p2sh_p2wsh else SpendPath.p2sh)

unfoldable pub p2sh_path : Bytes → SpendPath
p2sh_path script_sig =
    if length script_sig == 0 then SpendPath.p2sh else elim (extract_last_push script_sig) [
      | none ↦ SpendPath.p2sh
      | some redeem ↦ nested_path (is_witness_program redeem)
    ]

unfoldable pub key_path : Bytes → SpendPath
key_path r =
    if (length r == 25)
      && ((byte_at r 0 == 0x76)
          && ((byte_at r 1 == 0xa9)
              && ((byte_at r 2 == 0x14) && ((byte_at r 23 == 0x88) && (byte_at r 24 == 0xac)))))
    then SpendPath.p2pkh
    else (if (length r == 35) && ((byte_at r 0 == 0x21) && (byte_at r 34 == 0xac))
        then SpendPath.p2pk
        else (if (length r == 67) && ((byte_at r 0 == 0x41) && (byte_at r 66 == 0xac))
            then SpendPath.p2pk_uncompressed
            else SpendPath.other))

unfoldable pub classify_script : Bytes → Bytes → List Bytes → SpendPath
classify_script script_pubkey script_sig witness = elim (is_witness_program script_pubkey) [
  | some wp ↦ witness_path wp.0 wp.1 witness
  | none ↦ if is_p2sh script_pubkey then p2sh_path script_sig else key_path script_pubkey
]
