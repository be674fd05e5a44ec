-- ===== src/Cli.antt =====
-- cli.py: how a stack item is shown, and the prevouts that `repl` and `k_verify` hand to the K semantics.
-- The text of an item is held as its parts.
pub mod Shown
mod Examples
use bitcoin_script.Prelude.{
  ℕ, ◌-◌, ◌*◌, ◌^◌, Bool, Option, none, some, List, [], ◌∷◌, Bytes, length, last_byte, drop_last,
  from_le, bit_and, bit_or, if◌then◌else◌, ◌==◌, leb, ltb,
}
use bitcoin_script.Prelude.Int.{ℤ, pos, neg}
use bitcoin_script.Prelude.Little.{to_bytes_le}
use bitcoin_script.Blockchain.Pack.{both, prefixed}
use bitcoin_script.Blockchain.Tasks.{pack_amount}

-- "(empty)", the bytes and a number, or the bytes alone.
pub data StackItem : Type 0 where
  empty : StackItem
  number : Bytes → ℤ → StackItem
  plain : Bytes → StackItem

-- `val` of an item that is not empty.
unfoldable pub item_value : Bytes → ℤ
item_value item =
    let low = from_le (if ltb 1 (length item) then drop_last item else 0 ∷ []) in
    let val = bit_or low (bit_and (last_byte item) 0x7F * 2 ^ (8 * (length item - 1))) in
    if bit_and (last_byte item) 0x80 == 0 then pos val else neg (pos val)

unfoldable pub format_stack_item : Bytes → StackItem
format_stack_item item =
    if length item == 0
    then empty
    else (if leb (length item) 4 then number item (item_value item) else plain item)

-- The length of a script, before the script.
unfoldable pub script_size : ℕ → Option Bytes
script_size n =
    if leb n 252
    then to_bytes_le 1 n
    else (if leb n 0xFFFF
        then prefixed (0xfd ∷ []) (to_bytes_le 2 n)
        else prefixed (0xfe ∷ []) (to_bytes_le 4 n))

-- `_prevouts_blob`, of the amounts and scripts.
unfoldable pub repl_prevouts_blob : List (ℤ × Bytes) → Option Bytes
repl_prevouts_blob [] = some []
repl_prevouts_blob ((amt, spk) ∷ prevouts) =
    both (both (pack_amount amt) (both (script_size (length spk)) (some spk)))
      (repl_prevouts_blob prevouts)
