-- ===== src/Cli/Shown.antt =====
-- The command line's reading of numbers and prevouts, against the engine's and the block verifier's.
use bitcoin_script.Prelude.{
  ℕ, ◌+◌, ◌-◌, ◌*◌, ◌^◌, ◌≤◌, ◌<◌, ◌≡◌, refl, sym, ap, ◌∙◌, true, false, some, List, [], ◌∷◌, ◌++◌,
  map, Bytes, IsByte, All, length, last_byte, drop_last, from_le, bit_and, bit_or, if◌then◌else◌,
  ◌==◌, leb, ltb, arith, Bool-cases, inl, inr,
}
use bitcoin_script.Prelude.Int.{pos, neg}
use bitcoin_script.Prelude.Bits.{bit_or_shifted}
use bitcoin_script.Engine.Number.{element_to_int}
use bitcoin_script.Engine.Number.Value.{pow_byte}
use bitcoin_script.ScriptUtils.Codec.{scriptnum_to_int, scriptnum_to_int-eq}
use bitcoin_script.Blockchain.Pack.{both, compact_size, sized}
use bitcoin_script.Blockchain.Utxo.{Row}
use bitcoin_script.Blockchain.Tasks.{pack_amount, pack_prevouts}
use bitcoin_script.Cli.{
  empty, number, plain, item_value, format_stack_item, script_size, repl_prevouts_blob,
}

from_le_small : (xs : Bytes) → All IsByte xs → from_le xs < 2 ^ (8 * length xs)
from_le_small [] h = omega arith
from_le_small (b ∷ xs) h = omega (arith, h.0, from_le_small xs h.1, pow_byte (length xs))

from_le_last : (xs : Bytes) (y : ℕ) → from_le (xs ++ y ∷ []) ≡ from_le xs + y * 2 ^ (8 * length xs)
from_le_last [] y = omega arith
from_le_last (b ∷ xs) y =
    omega (arith, from_le_last xs y, ap (λ (t : ℕ). y * t) (pow_byte (length xs)))

drop_last-IsByte : (xs : Bytes) → All IsByte xs → All IsByte (drop_last xs)
drop_last-IsByte [] h = tt
drop_last-IsByte (b ∷ []) h = tt
drop_last-IsByte (b ∷ c ∷ xs) h = (h.0, drop_last-IsByte (c ∷ xs) h.1)

length-drop_last : (b : ℕ) (xs : Bytes) → length (drop_last (b ∷ xs)) ≡ length xs
length-drop_last b [] = refl
length-drop_last b (c ∷ xs) = omega (arith, length-drop_last c xs)

-- The bytes below the last one; a single byte has none.
low_bytes_of :
    (b : ℕ) (xs : Bytes)
    → from_le (if ltb 1 (length (b ∷ xs)) then drop_last (b ∷ xs) else 0 ∷ [])
      ≡ from_le (drop_last (b ∷ xs))
low_bytes_of b [] = refl
low_bytes_of b (c ∷ xs) =
    let several : ltb 1 (length (b ∷ c ∷ xs)) ≡ true = ground arith in rw (several) refl

-- `|` puts the last byte, without its highest bit, above the others.
value-from_le :
    (b : ℕ) (xs : Bytes)
    → All IsByte (b ∷ xs)
    → bit_or
        (from_le (if ltb 1 (length (b ∷ xs)) then drop_last (b ∷ xs) else 0 ∷ []))
        (bit_and (last_byte (b ∷ xs)) 0x7F * 2 ^ (8 * (length (b ∷ xs) - 1)))
      ≡ from_le (drop_last (b ∷ xs) ++ bit_and (last_byte (b ∷ xs)) 0x7F ∷ [])
value-from_le b xs h =
    let low = drop_last (b ∷ xs) in
    let top = bit_and (last_byte (b ∷ xs)) 0x7F in
    let places : length (b ∷ xs) - 1 ≡ length low = omega (arith, length-drop_last b xs) in
    ap (λ n. bit_or n (top * 2 ^ (8 * (length (b ∷ xs) - 1)))) (low_bytes_of b xs)
    ∙ ap (λ k. bit_or (from_le low) (top * 2 ^ (8 * k))) places
    ∙ bit_or_shifted (8 * length low) (from_le low) top
        (from_le_small low (drop_last-IsByte (b ∷ xs) h))
    ∙ sym (from_le_last low top)

filled : (b : ℕ) (xs : Bytes) → (length (b ∷ xs) == 0) ≡ false
filled b xs = ground arith

item_value-scriptnum_to_int :
    (b : ℕ) (xs : Bytes) → All IsByte (b ∷ xs) → item_value (b ∷ xs) ≡ scriptnum_to_int (b ∷ xs)
unfolding item_value scriptnum_to_int
item_value-scriptnum_to_int b xs h = elim (Bool-cases (bit_and (last_byte (b ∷ xs)) 0x80 == 0)) [
  | inl e ↦ rw (item_value, scriptnum_to_int, filled b xs, e) (ap pos (value-from_le b xs h))
  | inr e ↦
      rw (item_value, scriptnum_to_int, filled b xs, e)
        (ap (λ n. neg (pos n)) (value-from_le b xs h))
]

-- A stack item of 1 to 4 bytes is shown with the number that the engine reads it as, a longer one without
-- a number, and the empty one as empty.
pub format_stack_item-element_to_int :
    (item : Bytes)
    → All IsByte item
    → format_stack_item item ≡ (
        if length item == 0
        then empty
        else (if leb (length item) 4 then number item (element_to_int item) else plain item))
unfolding format_stack_item
format_stack_item-element_to_int [] h = refl
format_stack_item-element_to_int (b ∷ xs) h = rw (filled b xs) (
    ap (λ value. if leb (length (b ∷ xs)) 4 then number (b ∷ xs) value else plain (b ∷ xs))
      (item_value-scriptnum_to_int b xs h ∙ scriptnum_to_int-eq (b ∷ xs) h))

-- Every script fits the encoding of its length.
abbrev pub AreShort : List Row → Type 0
AreShort [] = Unit {0}
AreShort ((script, amount) ∷ rows) = (length script ≤ 0xFFFFFFFF) × AreShort rows

script_size-compact_size : (n : ℕ) → n ≤ 0xFFFFFFFF → script_size n ≡ compact_size n
unfolding script_size compact_size
script_size-compact_size n h =
    let fits : leb n 0xFFFFFFFF ≡ true = ground (arith, h) in rw (fits) refl

-- Where no script is longer than 2 ^ 32 - 1 bytes, the command line packs the outputs that are spent as
-- the block verifier does, and fails where it fails.
pub repl_prevouts_blob-pack_prevouts :
    (rows : List Row)
    → AreShort rows
    → repl_prevouts_blob (map (λ (row : Row). (row.1, row.0)) rows) ≡ pack_prevouts rows
unfolding repl_prevouts_blob pack_prevouts sized
repl_prevouts_blob-pack_prevouts [] short = refl
repl_prevouts_blob-pack_prevouts ((script, amount) ∷ rows) short =
    ap
      (λ size.
        both (both (pack_amount amount) (both size (some script)))
          (repl_prevouts_blob (map (λ (row : Row). (row.1, row.0)) rows)))
      (script_size-compact_size (length script) short.0)
    ∙ ap (both (both (pack_amount amount) (sized script)))
        (repl_prevouts_blob-pack_prevouts rows short.1)
