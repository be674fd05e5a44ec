-- ===== src/ScriptTypes/P2pkh.antt =====
-- script_types/p2pkh.py. The scripts of `create_script_pubkey` and `create_script_sig` are encoded by
-- the CScript of the library, so they are not here.
use bitcoin_script.Prelude.{not, ◌||◌, Bytes, length, take, drop, byte_at, if◌then◌else◌, ◌==◌}
use bitcoin_script.Errors.{Error, Result, ok, err}

unfoldable pub extract_pubkey_hash : Bytes → Result Bytes
extract_pubkey_hash r =
    if not (length r == 25)
      || (not (byte_at r 0 == 0x76)
          || (not (byte_at r 1 == 0xa9)
              || (not (byte_at r 2 == 0x14)
                  || (not (byte_at r 23 == 0x88) || not (byte_at r 24 == 0xac)))))
    then err Error.value_error
    else ok (take 20 (drop 3 r))
