-- ===== src/ScriptTypes/P2wsh.antt =====
-- script_types/p2wsh.py
use bitcoin_script.Prelude.{
  not, ◌||◌, List, [], ◌∷◌, Bytes, length, drop, byte_at, if◌then◌else◌, ◌==◌,
}
use bitcoin_script.Errors.{Error, Result, ok, err}

unfoldable pub extract_script_hash : Bytes → Result Bytes
extract_script_hash r =
    if not (length r == 34) || (not (byte_at r 0 == 0x00) || not (byte_at r 1 == 0x20))
    then err Error.value_error
    else ok (drop 2 r)

unfoldable pub create_script_pubkey : Bytes → Result Bytes
create_script_pubkey script_hash =
    if not (length script_hash == 32) then err Error.value_error else ok (0x00 ∷ 0x20 ∷ script_hash)

-- `witness[-1]`
last_item : Bytes → List Bytes → Bytes
last_item item [] = item
last_item item (next ∷ rest) = last_item next rest

unfoldable pub extract_witness_script : List Bytes → Result Bytes
unfolding last_item
extract_witness_script [] = err Error.value_error
extract_witness_script (item ∷ rest) = ok (last_item item rest)
