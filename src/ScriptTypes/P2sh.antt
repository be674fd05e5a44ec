-- ===== src/ScriptTypes/P2sh.antt =====
-- script_types/p2sh.py. What the CScript of the library encodes and decodes is not here.
use bitcoin_script.Prelude.{not, ◌||◌, Bytes, length, take, drop, byte_at, if◌then◌else◌, ◌==◌}
use bitcoin_script.Errors.{Error, Result, ok, err}

unfoldable pub extract_script_hash : Bytes → Result Bytes
extract_script_hash r =
    if not (length r == 23)
      || (not (byte_at r 0 == 0xa9) || (not (byte_at r 1 == 0x14) || not (byte_at r 22 == 0x87)))
    then err Error.value_error
    else ok (take 20 (drop 2 r))
