-- ===== src/Engine/Number.antt =====
-- The conversions between stack elements and Python values (the static methods of ScriptStack in
-- engine/stack.py): little-endian signed-magnitude numbers, and truth.
pub mod Value
pub mod RoundTrip
pub mod Minimal
pub mod Truth
use bitcoin_script.Prelude.{
  ℕ, zero, suc, ◌+◌, ◌-◌, ◌*◌, ◌/◌, ◌^◌, Bool, true, false, not, ◌&&◌, [], ◌∷◌, ◌++◌, length, Bytes,
  last_byte, if◌then◌else◌, ◌==◌, bit_and, bit_or, bit_xor,
}
use bitcoin_script.Prelude.Int.{ℤ, pos, neg, eqb_ℤ, ltb_ℤ, abs_ℕ}

-- The loop of `element_to_bool`: `i` is the index of the first byte of the rest.
unfoldable pub bool_from : ℕ → ℕ → Bytes → Bool
bool_from len i [] = false
bool_from len i (byte ∷ rest) =
    let later = bool_from len (i + 1) rest in
    if byte == 0 then later else not ((i == len - 1) && (byte == 0x80))

unfoldable pub element_to_bool : Bytes → Bool
unfolding bool_from
element_to_bool element = bool_from (length element) 0 element

-- The loop of `element_to_int`.
unfoldable pub or_bytes : ℕ → ℕ → Bytes → ℕ
or_bytes i result [] = result
or_bytes i result (byte ∷ rest) = or_bytes (i + 1) (bit_or result (byte * 2 ^ (8 * i))) rest

unfoldable pub element_to_int : Bytes → ℤ
unfolding or_bytes neg
element_to_int [] = pos 0
element_to_int (b ∷ bs) =
    let element : Bytes = b ∷ bs in
    let result = or_bytes 0 0 element in
    if bit_and (last_byte element) 0x80 == 0
    then pos result
    else neg (pos (bit_xor result (0x80 * 2 ^ (8 * (length element - 1)))))

-- The loop of `int_to_element`, with the value as fuel: each round divides it by 256.
unfoldable pub magnitude_bytes : ℕ → ℕ → Bytes
magnitude_bytes zero abs_val = []
magnitude_bytes (suc fuel) abs_val =
    let rest = magnitude_bytes fuel (abs_val / 2 ^ 8) in
    if abs_val == 0 then [] else bit_and abs_val 0xff ∷ rest

-- `result[-1] |= 0x80`
unfoldable pub set_sign_bit : Bytes → Bytes
set_sign_bit [] = []
set_sign_bit (b ∷ []) = bit_or b 0x80 ∷ []
set_sign_bit (b ∷ c ∷ rest) = b ∷ set_sign_bit (c ∷ rest)

unfoldable pub add_sign : Bool → Bytes → Bytes
unfolding set_sign_bit
add_sign negative result =
    if not (bit_and (last_byte result) 0x80 == 0)
    then result ++ (if negative then 0x80 else 0x00) ∷ []
    else (if negative then set_sign_bit result else result)

unfoldable pub int_to_element : ℤ → Bytes
int_to_element value =
    let negative = ltb_ℤ value (pos 0) in
    let abs_val = abs_ℕ value in
    if eqb_ℤ value (pos 0) then [] else add_sign negative (magnitude_bytes abs_val abs_val)

unfoldable pub bool_to_element : Bool → Bytes
bool_to_element true = 0x01 ∷ []
bool_to_element false = []
