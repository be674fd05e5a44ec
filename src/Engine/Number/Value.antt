-- ===== src/Engine/Number/Value.antt =====
-- What a stack element stands for as a number, in plain arithmetic, and that the bit operations of
-- `element_to_int` compute it.
use bitcoin_script.Prelude.{
  ℕ, suc, ◌+◌, ◌-◌, ◌*◌, ◌/◌, ◌%◌, ◌^◌, ◌<◌, ◌≡◌, refl, ap, ◌∙◌, [], ◌∷◌, Bytes, IsByte, All,
  length, last_byte, from_le, if◌then◌else◌, ltb, arith, bit_xor, Bool-cases, inl, inr,
}
use bitcoin_script.Prelude.Int.{ℤ, pos, neg}
use bitcoin_script.Prelude.Bits.{bit_or_shifted, bit_xor_clear, bit_and_top}
use bitcoin_script.Engine.Number.{or_bytes, element_to_int}
use native.Mathlib.Numerals.{towards_suc}

-- The number with the sign bit, the highest bit of the last byte, taken off.
abbrev pub magnitude : Bytes → ℕ
magnitude [] = 0
magnitude (b ∷ []) = b % 128
magnitude (b ∷ c ∷ rest) = b + 256 * magnitude (c ∷ rest)

abbrev pub signed : Bytes → ℤ
signed e = if ltb (last_byte e) 128 then pos (magnitude e) else neg (pos (magnitude e))

pow_add_eight : (m : ℕ) → 2 ^ (m + 8) ≡ 256 * 2 ^ m
pow_add_eight m = simp towards_suc (omega arith)

pub pow_byte : (n : ℕ) → 2 ^ (8 * suc n) ≡ 256 * 2 ^ (8 * n)
pow_byte n =
    let e : 8 * suc n ≡ 8 * n + 8 = omega arith in ap (λ (t : ℕ). 2 ^ t) e ∙ pow_add_eight (8 * n)

pow_byte_next : (n : ℕ) → 2 ^ (8 * (n + 1)) ≡ 256 * 2 ^ (8 * n)
pow_byte_next n = let e : n + 1 ≡ suc n = omega arith in ap (λ (t : ℕ). 2 ^ (8 * t)) e ∙ pow_byte n

-- A byte that is shifted in above `r` leaves room for the next one.
byte-lt : (b r p : ℕ) → b < 256 → r < p → r + b * p < 256 * p
byte-lt b r p h k = grind arith

or_bytes-from_le :
    (i r : ℕ) (e : Bytes)
    → r < 2 ^ (8 * i)
    → All IsByte e
    → or_bytes i r e ≡ r + from_le e * 2 ^ (8 * i)
unfolding or_bytes
or_bytes-from_le i r [] h bytes = omega arith
or_bytes-from_le i r (b ∷ e) h bytes = rw (bit_or_shifted (8 * i) r b h) (
    omega (
      arith,
      or_bytes-from_le (i + 1) (r + b * 2 ^ (8 * i)) e
          (omega (arith, pow_byte_next i, byte-lt b r (2 ^ (8 * i)) bytes.0 h)) bytes.1,
      ap (λ (t : ℕ). from_le e * t) (pow_byte_next i),
    ))

from_le-split :
    (b : ℕ) (e : Bytes)
    → All IsByte (b ∷ e)
    → (from_le (b ∷ e) ≡ magnitude (b ∷ e) + last_byte (b ∷ e) / 128 * (128 * 2 ^ (8 * length e)))
      × (magnitude (b ∷ e) < 128 * 2 ^ (8 * length e))
      × (last_byte (b ∷ e) < 256)
from_le-split b [] h = omega arith
from_le-split b (c ∷ e) h = ground (
  arith,
  from_le-split c e h.1,
  pow_byte (length e),
  ap (λ (t : ℕ). last_byte (c ∷ e) / 128 * (128 * t)) (pow_byte (length e)),
)

pow_add_seven : (m : ℕ) → 2 ^ (m + 7) ≡ 128 * 2 ^ m
pow_add_seven m = simp towards_suc (omega arith)

-- Clearing the top bit by `^` leaves the magnitude.
xor_sign : (k m : ℕ) → m < 128 * 2 ^ k → bit_xor (m + 128 * 2 ^ k) (128 * 2 ^ k) ≡ m
xor_sign k m h = rw (← pow_add_seven k) (bit_xor_clear (k + 7) m (omega (arith, pow_add_seven k)))

pub or_bytes-eq : (e : Bytes) → All IsByte e → or_bytes 0 0 e ≡ from_le e
or_bytes-eq e h = omega (arith, or_bytes-from_le 0 0 e (omega arith) h)

-- On bytes, `element_to_int` is the signed magnitude.
pub element_to_int-signed : (e : Bytes) → All IsByte e → element_to_int e ≡ signed e
unfolding element_to_int
element_to_int-signed [] h = refl
element_to_int-signed (b ∷ e) h =
    let (whole, low, last) = from_le-split b e h in
    let len : suc (length e) - 1 ≡ length e = omega arith in
    elim (Bool-cases (ltb (last_byte (b ∷ e)) 128)) [
      | inl plus ↦
          let same : or_bytes 0 0 (b ∷ e) ≡ magnitude (b ∷ e) =
            ground (arith, or_bytes-eq (b ∷ e) h) in
          ground (arith, bit_and_top (last_byte (b ∷ e)) last)
      | inr minus ↦
          let set : or_bytes 0 0 (b ∷ e) ≡ magnitude (b ∷ e) + 128 * 2 ^ (8 * length e) =
            ground (arith, or_bytes-eq (b ∷ e) h) in
          rw (len, set, xor_sign (8 * length e) (magnitude (b ∷ e)) low)
            (ground (arith, bit_and_top (last_byte (b ∷ e)) last))
    ]
