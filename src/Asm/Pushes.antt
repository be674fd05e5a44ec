-- ===== src/Asm/Pushes.antt =====
-- The pushes that the assembler makes of hex data, quoted texts and integers, as the loops over a
-- script and the engine's numbers read them.
use bitcoin_script.Prelude.{
  ℕ, zero, suc, ◌/◌, ◌%◌, ◌^◌, ◌<◌, ◌≡◌, ◌≢◌, refl, ap, Bool, true, false, some, List, [], ◌∷◌,
  ◌++◌, Bytes, length, take, drop, from_le, if◌then◌else◌, ◌==◌, leb, Bool-cases, inl, inr, arith,
}
use bitcoin_script.Prelude.Int.{ℤ, pos, eqb_ℤ, ltb_ℤ, abs_ℕ}
use bitcoin_script.Prelude.Little.{to_le, from_le-to_le}
use bitcoin_script.Prelude.Text.{Text, codes, to_hex, hex_digit}
use bitcoin_script.Engine.Number.{int_to_element, magnitude_bytes, set_sign_bit, add_sign}
use bitcoin_script.ScriptUtils.Walk.{next_push, push_data_from, extract_push_data}
use bitcoin_script.Asm.{low_bytes, mark_negative, int_to_scriptnum_hex, push_data_hex, hex_number}

-- A push with the smallest opcode that can hold its data.
abbrev pub pushed : Bytes → Bytes
pushed bytes =
    let n = length bytes in
    if n == 0
    then 0 ∷ []
    else (if leb n 75
        then n ∷ bytes
        else (if leb n 255
            then 0x4c ∷ n ∷ bytes
            else (if leb n 65535
                then 0x4d ∷ (to_le 2 n ++ bytes)
                else 0x4e ∷ (to_le 4 n ++ bytes))))

pub to_hex-append : (a b : Bytes) → to_hex a ++ to_hex b ≡ to_hex (a ++ b)
unfolding to_hex
to_hex-append [] b = refl
to_hex-append (x ∷ a) b =
    ap (λ (t : Text). hex_digit (x / 16) ∷ hex_digit (x % 16) ∷ t) (to_hex-append a b)

pub hex_number_byte : (n : ℕ) → n < 256 → hex_number n ≡ to_hex (n ∷ [])
unfolding hex_number to_hex
hex_number_byte n h = ground (arith, h)

-- The text of a push is the hex of the push.
pub push_data_hex-pushed : (bytes : Bytes) → push_data_hex bytes ≡ to_hex (pushed bytes)
unfolding push_data_hex to_hex
push_data_hex-pushed bytes = elim (Bool-cases (length bytes == 0)) [
  | inl e ↦ rw (push_data_hex, e) refl
  | inr e ↦ elim (Bool-cases (leb (length bytes) 75)) [
    | inl s ↦
        rw (push_data_hex, e, s)
          (ap (λ (t : Text). t ++ to_hex bytes)
            (hex_number_byte (length bytes) (ground (arith, s))))
    | inr s ↦ elim (Bool-cases (leb (length bytes) 255)) [
      | inl m ↦
          rw (push_data_hex, e, s, m)
            (ap (λ (t : Text). codes "4c" ++ (t ++ to_hex bytes))
              (hex_number_byte (length bytes) (ground (arith, m))))
      | inr m ↦ elim (Bool-cases (leb (length bytes) 65535)) [
        | inl l ↦ rw (push_data_hex, e, s, m, l) refl
        | inr l ↦ rw (push_data_hex, e, s, m, l) refl
      ]
    ]
  ]
]

low_bytes-magnitude_bytes : (fuel n : ℕ) → low_bytes fuel n ≡ magnitude_bytes fuel n
unfolding low_bytes magnitude_bytes
low_bytes-magnitude_bytes zero n = refl
low_bytes-magnitude_bytes (suc fuel) n =
    rw (low_bytes-magnitude_bytes fuel (n / 2 ^ 8)) (ground arith)

mark_negative-set_sign_bit : (b : Bytes) → mark_negative b ≡ set_sign_bit b
unfolding mark_negative set_sign_bit
mark_negative-set_sign_bit [] = refl
mark_negative-set_sign_bit (b ∷ []) = refl
mark_negative-set_sign_bit (b ∷ c ∷ rest) =
    ap (λ (t : Bytes). b ∷ t) (mark_negative-set_sign_bit (c ∷ rest))

zero_hex :
    (is_zero : Bool) (b : Bytes)
    → (if is_zero then [] else to_hex b) ≡ to_hex (if is_zero then [] else b)
unfolding to_hex
zero_hex true b = refl
zero_hex false b = refl

-- The assembler's own encoding of a script number is the engine's, in hex.
pub int_to_scriptnum_hex-int_to_element :
    (n : ℤ) → int_to_scriptnum_hex n ≡ to_hex (int_to_element n)
unfolding int_to_scriptnum_hex int_to_element add_sign
int_to_scriptnum_hex-int_to_element n =
    rw
      (
        int_to_scriptnum_hex,
        low_bytes-magnitude_bytes (abs_ℕ n) (abs_ℕ n),
        mark_negative-set_sign_bit (magnitude_bytes (abs_ℕ n) (abs_ℕ n)),
      )
      (zero_hex (eqb_ℤ n (pos 0))
        (add_sign (ltb_ℤ n (pos 0)) (magnitude_bytes (abs_ℕ n) (abs_ℕ n))))

take_all : (bytes : Bytes) → take (length bytes) bytes ≡ bytes
take_all [] = refl
take_all (b ∷ bytes) = ap (λ (t : Bytes). b ∷ t) (take_all bytes)

drop_all : (bytes : Bytes) → drop (length bytes) bytes ≡ []
drop_all [] = refl
drop_all (b ∷ bytes) = drop_all bytes

nothing_left : (fuel : ℕ) (items : List Bytes) → push_data_from fuel [] items ≡ items
unfolding push_data_from
nothing_left zero items = refl
nothing_left (suc fuel) items = refl

-- A script of one push, of which nothing is left.
one_push :
    (op : ℕ) (rest bytes header : Bytes) (size : ℕ)
    → next_push op rest ≡ some (record { header = header; size = size; rest = bytes })
    → size ≡ length bytes
    → extract_push_data (op ∷ rest) ≡ bytes ∷ []
unfolding extract_push_data push_data_from
one_push op rest bytes header size h e =
    rw (push_data_from, h, e, take_all bytes, drop_all bytes)
      (nothing_left (length rest) (bytes ∷ []))

-- A push that holds something is one push, of what it holds.
pub extract_push_data-pushed :
    (bytes : Bytes)
    → length bytes ≢ 0
    → length bytes < 256 ^ 4
    → extract_push_data (pushed bytes) ≡ bytes ∷ []
unfolding next_push
extract_push_data-pushed bytes h l = elim (Bool-cases (length bytes == 0)) [
  | inl e ↦ absurd (h (ground (arith, e)))
  | inr e ↦ elim (Bool-cases (leb (length bytes) 75)) [
    | inl s ↦
        rw (e, s)
          (one_push (length bytes) bytes bytes [] (length bytes) (ground (arith, s, e)) refl)
    | inr s ↦ elim (Bool-cases (leb (length bytes) 255)) [
      | inl m ↦
          rw (e, s, m)
            (one_push 0x4c (length bytes ∷ bytes) bytes (length bytes ∷ []) (length bytes) refl
              refl)
      | inr m ↦ elim (Bool-cases (leb (length bytes) 65535)) [
        | inl w ↦
            rw (e, s, m, w)
              (one_push 0x4d (to_le 2 (length bytes) ++ bytes) bytes (to_le 2 (length bytes))
                (from_le (to_le 2 (length bytes))) refl
                (from_le-to_le 2 (length bytes) (ground (arith, w))))
        | inr w ↦
            rw (e, s, m, w)
              (one_push 0x4e (to_le 4 (length bytes) ++ bytes) bytes (to_le 4 (length bytes))
                (from_le (to_le 4 (length bytes))) refl (from_le-to_le 4 (length bytes) l))
      ]
    ]
  ]
]
