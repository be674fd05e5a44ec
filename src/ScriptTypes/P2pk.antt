-- ===== src/ScriptTypes/P2pk.antt =====
-- script_types/p2pk.py; a `CScript` is its bytes.
use bitcoin_script.Prelude.{
  not, ◌&&◌, ◌||◌, [], ◌∷◌, ◌++◌, Bytes, length, take, drop, byte_at, if◌then◌else◌, ◌==◌, ltb,
}
use bitcoin_script.Errors.{Error, Result, ok, err}

unfoldable pub extract_pubkey : Bytes → Result Bytes
extract_pubkey r =
    if (length r == 35) && ((byte_at r 0 == 0x21) && (byte_at r 34 == 0xac))
    then ok (take 33 (drop 1 r))
    else (if (length r == 67) && ((byte_at r 0 == 0x41) && (byte_at r 66 == 0xac))
        then ok (take 65 (drop 1 r))
        else err Error.value_error)

unfoldable pub create_script_pubkey : Bytes → Result Bytes
create_script_pubkey pubkey =
    if not ((length pubkey == 33) || (length pubkey == 65))
    then err Error.value_error
    else ok (length pubkey ∷ (pubkey ++ 0xac ∷ []))

-- `bytes([n])` raises ValueError for 256 and more.
unfoldable pub create_script_sig : Bytes → Result Bytes
create_script_sig signature =
    if ltb (length signature) 256 then ok (length signature ∷ signature) else err Error.value_error
