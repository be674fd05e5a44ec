-- ===== src/ScriptUtils/Codec.antt =====
-- script_utils.py: numbers, the witness blob and the script patterns.
use bitcoin_script.Prelude.{
  ℕ, ◌+◌, ◌-◌, ◌/◌, ◌%◌, ◌≡◌, refl, Bool, not, ◌&&◌, ◌||◌, Option, none, some, List, [], ◌∷◌, ◌++◌,
  Bytes, IsByte, All, length, drop, byte_at, last_byte, drop_last, from_le, bit_and, if◌then◌else◌,
  ◌==◌, ltb, leb, arith,
}
use bitcoin_script.Prelude.Int.{ℤ, pos, neg}
use bitcoin_script.Prelude.Bits.{bit_and_low7, bit_and_top}
use bitcoin_script.Engine.Number.{element_to_int}
use bitcoin_script.Engine.Number.Value.{magnitude, element_to_int-signed}
use bitcoin_script.Engine.Number.RoundTrip.{last_byte-IsByte}

unfoldable pub scriptnum_to_int : Bytes → ℤ
unfolding neg
scriptnum_to_int b =
    let magnitude = from_le (drop_last b ++ bit_and (last_byte b) 0x7f ∷ []) in
    if length b == 0
    then pos 0
    else (if not (bit_and (last_byte b) 0x80 == 0) then neg (pos magnitude) else pos magnitude)

masked :
    (b : ℕ) (e : Bytes)
    → from_le (drop_last (b ∷ e) ++ bit_and (last_byte (b ∷ e)) 0x7f ∷ []) ≡ magnitude (b ∷ e)
masked b [] = omega (arith, bit_and_low7 b)
masked b (c ∷ e) = omega (arith, masked c e)

-- The two decoders of script numbers, the one of script_utils.py and the one of the engine, agree on
-- every byte string.
pub scriptnum_to_int-eq : (e : Bytes) → All IsByte e → scriptnum_to_int e ≡ element_to_int e
unfolding scriptnum_to_int
scriptnum_to_int-eq [] h = unfold element_to_int in refl
scriptnum_to_int-eq (b ∷ e) h =
    rw (element_to_int-signed (b ∷ e) h, masked b e)
      (ground (arith, bit_and_top (last_byte (b ∷ e)) (last_byte-IsByte (b ∷ e) h)))

-- `n.to_bytes(2, "big")`; Python raises for 65536 and more.
unfoldable pub to_be2 : ℕ → Option Bytes
to_be2 n = if ltb n 65536 then some (n / 256 ∷ n % 256 ∷ []) else none

append_item : Bytes → Bytes → Option Bytes → Option Bytes
append_item item size none = none
append_item item size (some rest) = some (size ++ (item ++ rest))

-- The loop of `encode_witness_blob` over the items that are left; `none` is the OverflowError.
unfoldable pub encode_items : List Bytes → Option Bytes
unfolding append_item
encode_items [] = some []
encode_items (item ∷ items) =
    let rest = encode_items items in
    elim (to_be2 (length item)) [ none ↦ none | some size ↦ append_item item size rest ]

unfoldable pub encode_witness_blob : List Bytes → Option Bytes
encode_witness_blob witness_stack = elim (to_be2 (length witness_stack)) [
  | none ↦ none
  | some count ↦ elim (encode_items witness_stack) [
    | none ↦ none
    | some items ↦ some (count ++ items)
  ]
]

with_program : Bytes → ℕ → Option (ℕ × Bytes)
with_program script version =
    if not (byte_at script 1 + 2 == length script) then none else some (version, drop 2 script)

unfoldable pub is_witness_program : Bytes → Option (ℕ × Bytes)
unfolding with_program
is_witness_program script =
    let v = byte_at script 0 in
    if ltb (length script) 4 || ltb 42 (length script)
    then none
    else (if v == 0x00
        then with_program script 0
        else (if leb 0x51 v && leb v 0x60 then with_program script (v - 0x50) else none))

unfoldable pub is_p2sh : Bytes → Bool
is_p2sh script =
    (length script == 23)
    && (byte_at script 0 == 0xa9)
    && (byte_at script 1 == 0x14)
    && (byte_at script 22 == 0x87)
