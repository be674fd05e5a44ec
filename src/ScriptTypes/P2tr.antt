-- ===== src/ScriptTypes/P2tr.antt =====
-- script_types/p2tr.py
use bitcoin_script.Prelude.{not, ◌||◌, ◌∷◌, Bytes, length, drop, byte_at, if◌then◌else◌, ◌==◌}
use bitcoin_script.Errors.{Error, Result, ok, err}

unfoldable pub extract_pubkey : Bytes → Result Bytes
extract_pubkey r =
    if not (length r == 34) || (not (byte_at r 0 == 0x51) || not (byte_at r 1 == 0x20))
    then err Error.value_error
    else ok (drop 2 r)

unfoldable pub create_script_pubkey : Bytes → Result Bytes
create_script_pubkey tweaked_pubkey =
    if not (length tweaked_pubkey == 32)
    then err Error.value_error
    else ok (0x51 ∷ 0x20 ∷ tweaked_pubkey)
