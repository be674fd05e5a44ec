-- ===== src/Asm/Words.antt =====
-- Texts of one word: hex data and integers.
use bitcoin_script.Prelude.{
  ℕ, ◌/◌, ◌%◌, ◌^◌, ◌≤◌, ◌<◌, ◌≡◌, ◌≢◌, refl, sym, ap, ◌∙◌, Bool, true, false, ◌&&◌, ◌||◌, none,
  some, List, [], ◌∷◌, ◌++◌, append-nil, Bytes, All, IsByte, length, ◌==◌, leb, Bool-cases, inl,
  inr, arith,
}
use bitcoin_script.Prelude.Int.{ℤ, pos, negsuc, eqb_ℤ, leb_ℤ}
use bitcoin_script.Prelude.Little.{to_le, to_le-IsByte}
use bitcoin_script.Prelude.Text.{
  Text, codes, is_space, to_upper, to_hex, from_hex, hex_digit, from_hex-to_hex, split, first_word,
}
use bitcoin_script.Errors.{Result, ok, err}
use bitcoin_script.Engine.Number.{element_to_int, int_to_element}
use bitcoin_script.Engine.Number.RoundTrip.{element_to_int-int_to_element, int_to_element-IsByte}
use bitcoin_script.ScriptUtils.Walk.{extract_push_data}
use bitcoin_script.Asm.{
  quoted, behind_0x, look_up_text, bare_to_hex, to_int, push_data_hex, number_hex, token_hex,
  tokens_hex, join_hex, join_bytes, parse_asm,
}
use bitcoin_script.Asm.Join.{parse_asm-tokens}
use bitcoin_script.Asm.Pushes.{
  pushed, to_hex-append, hex_number_byte, push_data_hex-pushed, int_to_scriptnum_hex-int_to_element,
  extract_push_data-pushed,
}

-- A character of a word.
abbrev pub IsInk : ℕ → Type 0
IsInk c = is_space c ≡ false

first_word_ink : (word : Text) → All IsInk word → first_word word ≡ (word, [])
unfolding first_word
first_word_ink [] h = refl
first_word_ink (c ∷ word) (h, more) = rw (h, first_word_ink word more) refl

split_ink : (c : ℕ) (word : Text) → All IsInk (c ∷ word) → split (c ∷ word) ≡ (c ∷ word) ∷ []
unfolding split
split_ink c word h = rw (split, first_word_ink (c ∷ word) h) refl

alone : (r : Result Text) → join_bytes (join_hex r (ok [])) ≡ join_bytes r
alone (err e) = refl
alone (ok text) = ap (λ (t : Text). join_bytes (ok t)) (append-nil text)

parse_asm_word :
    (c : ℕ) (word : Text)
    → All IsInk (c ∷ word)
    → parse_asm (c ∷ word) ≡ join_bytes (token_hex (c ∷ word))
unfolding tokens_hex
parse_asm_word c word h =
    parse_asm-tokens (c ∷ word)
    ∙ ap (λ (ws : List Text). join_bytes (tokens_hex ws)) (split_ink c word h)
    ∙ alone (token_hex (c ∷ word))

All-append : {A : Type 0} (P : A → Type 0) (xs ys : List A) → All P xs → All P ys → All P (xs ++ ys)
All-append P [] ys h k = k
All-append P (x ∷ xs) ys (h, more) k = (h, All-append P xs ys more k)

pushed-IsByte : (bytes : Bytes) → All IsByte bytes → All IsByte (pushed bytes)
pushed-IsByte bytes h = elim (Bool-cases (length bytes == 0)) [
  | inl e ↦ rw (e) (omega arith, tt)
  | inr e ↦ elim (Bool-cases (leb (length bytes) 75)) [
    | inl s ↦ rw (e, s) (ground (arith, s), h)
    | inr s ↦ elim (Bool-cases (leb (length bytes) 255)) [
      | inl m ↦ rw (e, s, m) (omega arith, (ground (arith, m), h))
      | inr m ↦ elim (Bool-cases (leb (length bytes) 65535)) [
        | inl w ↦
            rw (e, s, m, w)
              (
                omega arith,
                All-append IsByte (to_le 2 (length bytes)) bytes (to_le-IsByte 2 (length bytes)) h,
              )
        | inr w ↦
            rw (e, s, m, w)
              (
                omega arith,
                All-append IsByte (to_le 4 (length bytes)) bytes (to_le-IsByte 4 (length bytes)) h,
              )
      ]
    ]
  ]
]

from_hex-push_data_hex :
    (bytes : Bytes) → All IsByte bytes → from_hex (push_data_hex bytes) ≡ some (pushed bytes)
from_hex-push_data_hex bytes h =
    ap from_hex (push_data_hex-pushed bytes)
    ∙ from_hex-to_hex (pushed bytes) (pushed-IsByte bytes h)

hex_digit-IsInk : (d : ℕ) → IsInk (hex_digit d)
hex_digit-IsInk d = ground arith

to_hex-IsInk : (bytes : Bytes) → All IsInk (to_hex bytes)
unfolding to_hex
to_hex-IsInk [] = tt
to_hex-IsInk (b ∷ bytes) =
    (hex_digit-IsInk (b / 16), (hex_digit-IsInk (b % 16), to_hex-IsInk bytes))

-- Hex data, 0x and the hex of one byte or more but fewer than 2 ^ 32, is assembled to one push, of
-- those bytes.
pub parse_asm-to_hex :
    (bytes : Bytes)
    → All IsByte bytes
    → length bytes ≢ 0
    → length bytes < 256 ^ 4
    → (script : Bytes) × (parse_asm (codes "0x" ++ to_hex bytes) ≡ ok script)
      × (extract_push_data script ≡ bytes ∷ [])
unfolding token_hex
parse_asm-to_hex bytes h some_byte few = (
  pushed bytes,
  parse_asm_word b'0' (b'x' ∷ to_hex bytes) (refl, (refl, to_hex-IsInk bytes))
      ∙ rw (token_hex, from_hex-to_hex bytes h, from_hex-push_data_hex bytes h) refl,
  extract_push_data-pushed bytes some_byte few,
)

-- The integers that have an opcode of their own.
abbrev pub has_opcode : ℤ → Bool
has_opcode n = eqb_ℤ n (pos 0) || (eqb_ℤ n (negsuc 0) || (leb_ℤ (pos 1) n && leb_ℤ n (pos 16)))

element_of : (n : ℤ) → eqb_ℤ n (pos 0) ≡ false → length (int_to_element n) ≢ 0
unfolding element_to_int
element_of n e z = absurd (
    ground (
      arith,
      e,
      at_zero (
          sym (element_to_int-int_to_element n)
          ∙ ap element_to_int (no_bytes (int_to_element n) z)),
    ))
  where
    no_bytes : (b : Bytes) → length b ≡ 0 → b ≡ []
    no_bytes [] h = refl
    no_bytes (x ∷ b) h = absurd (omega (arith, h))

    at_zero : n ≡ pos 0 → eqb_ℤ n (pos 0) ≡ true
    at_zero h = rw (h) refl

or_false : (a b c : Bool) → (a || (b || c)) ≡ false → (a ≡ false) × (b ≡ false) × (c ≡ false)
or_false false false false h = (refl, refl, refl)
or_false false false true h = absurd (cc h)
or_false false true c h = absurd (cc h)
or_false true b c h = absurd (cc h)

half_length : (b : Bytes) → length (to_hex b) / 2 ≡ length b
unfolding to_hex
half_length [] = refl
half_length (x ∷ b) = omega (arith, half_length b)

pushed_small : (b : Bytes) → length b ≢ 0 → length b ≤ 75 → pushed b ≡ length b ∷ b
pushed_small b h l = rw (is_zero, is_small) refl
  where
    is_zero : (length b == 0) ≡ false
    is_zero = ground (arith, h)

    is_small : leb (length b) 75 ≡ true
    is_small = ground (arith, l)

number_hex-int_to_element :
    (n : ℤ)
    → has_opcode n ≡ false
    → length (int_to_element n) < 256
    → number_hex n ≡ to_hex (length (int_to_element n) ∷ int_to_element n)
unfolding number_hex
number_hex-int_to_element n own short =
    let (zero', minus, small) =
      or_false (eqb_ℤ n (pos 0)) (eqb_ℤ n (negsuc 0)) (leb_ℤ (pos 1) n && leb_ℤ n (pos 16)) own in
    let element = int_to_element n in
    rw
      (
        number_hex,
        zero',
        minus,
        small,
        int_to_scriptnum_hex-int_to_element n,
        half_length element,
        hex_number_byte (length element) short,
      )
      (to_hex-append (length element ∷ []) element)

-- An integer without an opcode of its own, as a word that is no name, no quoted text and no hex data,
-- and that takes 75 bytes at most, is assembled to one push, of the element that the engine reads as
-- that integer.
pub parse_asm-to_int :
    (c : ℕ) (word : Text) (n : ℤ)
    → All IsInk (c ∷ word)
    → quoted (c ∷ word) ≡ none
    → behind_0x (c ∷ word) ≡ none
    → look_up_text (to_upper (c ∷ word)) bare_to_hex ≡ none
    → to_int (c ∷ word) ≡ some n
    → has_opcode n ≡ false
    → length (int_to_element n) ≤ 75
    → (script element : Bytes) × (parse_asm (c ∷ word) ≡ ok script)
      × (extract_push_data script ≡ element ∷ [])
      × (element_to_int element ≡ n)
unfolding token_hex
parse_asm-to_int c word n ink q x u i own short =
    let element = int_to_element n in
    (
      length element ∷ element,
      element,
      parse_asm_word c word ink
          ∙ rw
              (
                token_hex,
                q,
                x,
                u,
                i,
                number_hex-int_to_element n own (omega (arith, short)),
                from_hex-to_hex (length element ∷ element)
                    (omega (arith, short), int_to_element-IsByte n),
              )
              refl,
      ap extract_push_data (
            sym (
              pushed_small element
                (element_of n
                  (or_false (eqb_ℤ n (pos 0)) (eqb_ℤ n (negsuc 0))
                    (leb_ℤ (pos 1) n && leb_ℤ n (pos 16)) own).0)
                short))
          ∙ extract_push_data-pushed element
              (element_of n
                (or_false (eqb_ℤ n (pos 0)) (eqb_ℤ n (negsuc 0))
                  (leb_ℤ (pos 1) n && leb_ℤ n (pos 16)) own).0)
              (omega (arith, short)),
      element_to_int-int_to_element n,
    )
