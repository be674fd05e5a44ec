-- ===== src/ScriptTypes/P2wpkh.antt =====
-- script_types/p2wpkh.py
use bitcoin_script.Prelude.{
  not, ◌||◌, [], ◌∷◌, ◌++◌, Bytes, length, drop, byte_at, if◌then◌else◌, ◌==◌,
}
use bitcoin_script.Errors.{Error, Result, ok, err}

unfoldable pub extract_pubkey_hash : Bytes → Result Bytes
extract_pubkey_hash r =
    if not (length r == 22) || (not (byte_at r 0 == 0x00) || not (byte_at r 1 == 0x14))
    then err Error.value_error
    else ok (drop 2 r)

unfoldable pub create_script_pubkey : Bytes → Result Bytes
create_script_pubkey pubkey_hash =
    if not (length pubkey_hash == 20) then err Error.value_error else ok (0x00 ∷ 0x14 ∷ pubkey_hash)

unfoldable pub witness_to_script_code : Bytes → Result Bytes
witness_to_script_code pubkey_hash =
    if not (length pubkey_hash == 20)
    then err Error.value_error
    else ok ((0x76 ∷ 0xa9 ∷ 0x14 ∷ []) ++ (pubkey_hash ++ (0x88 ∷ 0xac ∷ [])))
