-- ===== src/Asm/Examples.antt =====
-- The theorems on the assembler at concrete texts.
use bitcoin_script.Prelude.{◌≡◌, refl, [], ◌∷◌, ◌++◌, Bytes, arith}
use bitcoin_script.Prelude.Int.{neg, pos}
use bitcoin_script.Prelude.Text.{codes, is_blank, split, first_word, to_hex, from_hex}
use bitcoin_script.Errors.{Error, ok, err}
use bitcoin_script.ScriptUtils.Walk.{extract_push_data}
use bitcoin_script.Engine.Number.{element_to_int, int_to_element, magnitude_bytes, add_sign}
use bitcoin_script.Asm.Words.{parse_asm-to_hex, parse_asm-to_int}
use bitcoin_script.Asm.Opcodes.{opcodes}
use bitcoin_script.Asm.{
  parse_asm, tokens_hex, token_hex, number_hex, to_int, unsigned, decimal, push_data_hex,
  int_to_scriptnum_hex, mark_negative, low_bytes, hex_number, bare_to_hex, add_names, look_up_text,
}

parse_asm_test :
    parse_asm (codes "dup HASH160 0xABcd 'hi' -5 300 op_3")
    ≡ ok (0x76 ∷ 0xa9 ∷ 2 ∷ 0xab ∷ 0xcd ∷ 2 ∷ 104 ∷ 105 ∷ 1 ∷ 0x85 ∷ 2 ∷ 0x2c ∷ 1 ∷ 0x53 ∷ [])
unfolding parse_asm tokens_hex token_hex number_hex to_int unsigned decimal push_data_hex
    int_to_scriptnum_hex mark_negative low_bytes hex_number bare_to_hex add_names look_up_text
    opcodes is_blank split first_word to_hex from_hex neg
parse_asm_test = refl

-- A quoted text with a space in it is split before the quotes are seen.
quoted_space_test : parse_asm (codes "'a b'") ≡ err Error.value_error
unfolding parse_asm tokens_hex token_hex number_hex to_int unsigned decimal push_data_hex
    int_to_scriptnum_hex mark_negative low_bytes hex_number bare_to_hex add_names look_up_text
    opcodes is_blank split first_word to_hex from_hex neg
quoted_space_test = refl

assembled : parse_asm (codes "DUP") ≡ ok (0x76 ∷ [])
unfolding parse_asm tokens_hex token_hex number_hex to_int unsigned decimal push_data_hex
    int_to_scriptnum_hex mark_negative low_bytes hex_number bare_to_hex add_names look_up_text
    opcodes is_blank split first_word to_hex from_hex neg
assembled = refl

parse_asm-to_hex_example :
    (script : Bytes) × (parse_asm (codes "0x" ++ to_hex (0xab ∷ 0xcd ∷ [])) ≡ ok script)
    × (extract_push_data script ≡ (0xab ∷ 0xcd ∷ []) ∷ [])
parse_asm-to_hex_example =
    parse_asm-to_hex (0xab ∷ 0xcd ∷ []) (omega arith, (omega arith, tt)) (λ h. omega (arith, h))
      (omega arith)

parse_asm-to_int_example :
    (script element : Bytes) × (parse_asm (codes "300") ≡ ok script)
    × (extract_push_data script ≡ element ∷ [])
    × (element_to_int element ≡ pos 300)
unfolding to_int unsigned decimal look_up_text bare_to_hex add_names opcodes int_to_element
    magnitude_bytes add_sign
parse_asm-to_int_example =
    parse_asm-to_int b'3' (codes "00") (pos 300) (refl, (refl, (refl, tt))) refl refl refl refl refl
      (omega arith)
