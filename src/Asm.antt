-- ===== src/Asm.antt =====
-- asm.py: the assembler. A text is the list of its code points, which are ASCII.
pub mod Opcodes
pub mod Join
pub mod Pushes
pub mod Words
mod Examples
use bitcoin_script.Prelude.{
  ℕ, zero, suc, ◌+◌, ◌-◌, ◌*◌, ◌/◌, ◌%◌, ◌^◌, Bool, true, false, not, ◌&&◌, ◌||◌, Option, none,
  some, List, [], ◌∷◌, ◌++◌, Bytes, length, last_byte, drop_last, bytes_eq, bit_and, bit_or,
  if◌then◌else◌, ◌==◌, leb, ltb,
}
use Prim.Native.String.{String}
use bitcoin_script.Prelude.Int.{ℤ, pos, negsuc, neg, eqb_ℤ, ltb_ℤ, leb_ℤ, abs_ℕ}
use bitcoin_script.Prelude.Text.{
  Text, codes, is_blank, split, to_upper, to_hex, from_hex, hex_digit,
}
use bitcoin_script.Prelude.Little.{to_le}
use bitcoin_script.Errors.{Error, Result, ok, err}
use bitcoin_script.Asm.Opcodes.{opcodes}

-- A dict of texts is the list of its items, the newest first.
unfoldable pub look_up_text : Text → List (Text × Text) → Option Text
look_up_text key [] = none
look_up_text key ((k, v) ∷ items) = if bytes_eq k key then some v else look_up_text key items

abbrev pub starts_with : Text → Text → Bool
starts_with [] text = true
starts_with (c ∷ start) [] = false
starts_with (c ∷ start) (d ∷ text) = (c == d) && starts_with start text

-- `_bare = _name[3:]`, where it is not in the dict.
abbrev pub add_bare : Text → Text → List (Text × Text) → List (Text × Text)
add_bare bare value items = elim (look_up_text bare items) [
  | none ↦ (bare, value) ∷ items
  | some old ↦ items
]

abbrev pub bare_name : Text → Text
bare_name (a ∷ b ∷ c ∷ name) = name
bare_name name = []

-- The loop that builds `_BARE_TO_HEX`.
unfoldable pub add_names : List (String × String) → List (Text × Text) → List (Text × Text)
add_names [] items = items
add_names ((name, value) ∷ names) items =
    let named = (codes name, codes value) ∷ items in
    add_names names (
      if starts_with (codes "OP_") (codes name)
      then add_bare (bare_name (codes name)) (codes value) named
      else named)

-- `_BARE_TO_HEX`, with the four names that are put last.
unfoldable pub bare_to_hex : List (Text × Text)
bare_to_hex =
    (codes "CHECKLOCKTIMEVERIFY", codes "b1")
    ∷ (codes "CHECKSEQUENCEVERIFY", codes "b2")
    ∷ (codes "TRUE", codes "51")
    ∷ (codes "FALSE", codes "00")
    ∷ add_names opcodes []

-- The digits of a number in base 16, the highest first; the number itself is fuel.
unfoldable pub hex_digits : ℕ → ℕ → Text
hex_digits zero n = []
hex_digits (suc fuel) n =
    let high = hex_digits fuel (n / 16) in if n == 0 then [] else high ++ hex_digit (n % 16) ∷ []

-- `f"{n:02x}"`
unfoldable pub hex_number : ℕ → Text
hex_number n = if ltb n 256 then hex_digit (n / 16) ∷ hex_digit (n % 16) ∷ [] else hex_digits n n

-- The loop of `_int_to_scriptnum_hex`, with the value as fuel.
unfoldable pub low_bytes : ℕ → ℕ → Bytes
low_bytes zero absval = []
low_bytes (suc fuel) absval =
    let rest = low_bytes fuel (absval / 2 ^ 8) in
    if ltb 0 absval then bit_and absval 0xff ∷ rest else []

-- `result[-1] |= 0x80`
unfoldable pub mark_negative : Bytes → Bytes
mark_negative [] = []
mark_negative (b ∷ []) = bit_or b 0x80 ∷ []
mark_negative (b ∷ c ∷ rest) = b ∷ mark_negative (c ∷ rest)

unfoldable pub int_to_scriptnum_hex : ℤ → Text
int_to_scriptnum_hex n =
    let negative = ltb_ℤ n (pos 0) in
    let result = low_bytes (abs_ℕ n) (abs_ℕ n) in
    if eqb_ℤ n (pos 0)
    then []
    else to_hex (
        if not (bit_and (last_byte result) 0x80 == 0)
        then result ++ (if negative then 0x80 else 0x00) ∷ []
        else (if negative then mark_negative result else result))

-- `_push_data_hex`; nothing is longer than 2 ^ 32 - 1 bytes.
unfoldable pub push_data_hex : Bytes → Text
push_data_hex data' =
    let n = length data' in
    if n == 0
    then codes "00"
    else (if leb n 75
        then hex_number n ++ to_hex data'
        else (if leb n 255
            then codes "4c" ++ (hex_number n ++ to_hex data')
            else (if leb n 65535
                then codes "4d" ++ (to_hex (to_le 2 n) ++ to_hex data')
                else codes "4e" ++ (to_hex (to_le 4 n) ++ to_hex data'))))

-- `int(token)`: an optional sign, and digits between which single underscores may stand, 4300 of them
-- at most.
unfoldable pub decimal : Bool → ℕ → ℕ → Text → Option (ℕ × ℕ)
decimal digit_before count n [] = if digit_before then some (count, n) else none
decimal digit_before count n (c ∷ text) =
    let is_digit = leb 48 c && leb c 57 in
    let is_underscore = c == 95 && digit_before in
    if is_digit || is_underscore
    then decimal is_digit (if is_digit then count + 1 else count)
        (if is_digit then n * 10 + (c - 48) else n) text
    else none

abbrev pub at_most_4300 : Option (ℕ × ℕ) → Option ℕ
at_most_4300 none = none
at_most_4300 (some (count, n)) = if leb count 4300 then some n else none

unfoldable pub unsigned : Text → Option ℕ
unsigned text = at_most_4300 (decimal false 0 0 text)

unfoldable pub to_int : Text → Option ℤ
to_int [] = none
to_int (c ∷ text) =
    if c == b'-'
    then elim (unsigned text) [ none ↦ none | some n ↦ some (neg (pos n)) ]
    else (if c == b'+'
        then elim (unsigned text) [ none ↦ none | some n ↦ some (pos n) ]
        else elim (unsigned (c ∷ text)) [ none ↦ none | some n ↦ some (pos n) ])

-- What is appended to `result` for a bare integer.
unfoldable pub number_hex : ℤ → Text
number_hex n =
    let num_hex = int_to_scriptnum_hex n in
    if eqb_ℤ n (pos 0)
    then codes "00"
    else (if eqb_ℤ n (negsuc 0)
        then codes "4f"
        else (if leb_ℤ (pos 1) n && leb_ℤ n (pos 16)
            then hex_number (0x50 + abs_ℕ n)
            else hex_number (length num_hex / 2) ++ num_hex))

-- `token[1:-1]` of a token in single quotes.
abbrev pub quoted : Text → Option Bytes
quoted [] = none
quoted (c ∷ text) =
    if c == 39 && (last_byte (c ∷ text) == 39 && ltb 1 (length (c ∷ text)))
    then some (drop_last text)
    else none

-- `token[2:]` of a token that begins with 0x or 0X.
abbrev pub behind_0x : Text → Option Text
behind_0x (a ∷ b ∷ text) = if (a == b'0') && ((b == b'x') || (b == b'X')) then some text else none
behind_0x text = none

abbrev pub or_value_error : {A : Type 0} → Option A → Result A
or_value_error none = err Error.value_error
or_value_error (some a) = ok a

-- One round of the loop over the tokens: what is appended to `result`.
unfoldable pub token_hex : Text → Result Text
token_hex token = elim (quoted token) [
  | some text ↦ ok (push_data_hex text)
  | none ↦ elim (behind_0x token) [
    | some text ↦ elim (from_hex text) [
      | none ↦ err Error.value_error
      | some bytes ↦ ok (push_data_hex bytes)
    ]
    | none ↦ elim (look_up_text (to_upper token) bare_to_hex) [
      | some value ↦ ok value
      | none ↦ elim (to_int token) [ none ↦ err Error.value_error | some n ↦ ok (number_hex n) ]
    ]
  ]
]

-- The texts that are appended, one behind the other.
abbrev pub join_hex : Result Text → Result Text → Result Text
join_hex (err e) rest = err e
join_hex (ok text) (err e) = err e
join_hex (ok text) (ok rest) = ok (text ++ rest)

unfoldable pub tokens_hex : List Text → Result Text
tokens_hex [] = ok []
tokens_hex (token ∷ tokens) = join_hex (token_hex token) (tokens_hex tokens)

-- `bytes.fromhex("".join(result))`
abbrev pub join_bytes : Result Text → Result Bytes
join_bytes (err e) = err e
join_bytes (ok text) = or_value_error (from_hex text)

unfoldable pub parse_asm : Text → Result Bytes
parse_asm asm = if is_blank asm then ok [] else join_bytes (tokens_hex (split asm))
