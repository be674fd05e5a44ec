-- ===== src/Engine/Number/RoundTrip.antt =====
-- Encoding and decoding of numbers are inverse to one another: `int_to_element` picks the one
-- minimal encoding of each integer.
use bitcoin_script.Prelude.{
  ℕ, zero, suc, ◌+◌, ◌*◌, ◌/◌, ◌%◌, ◌^◌, ◌≤◌, ◌<◌, ◌≡◌, ◌≢◌, ◌⊎◌, inl, inr, refl, ap, ◌∙◌, Bool,
  true, false, not, [], ◌∷◌, ◌++◌, Bytes, IsByte, All, last_byte, from_le, ltb, if◌then◌else◌, ◌==◌,
  arith, Bool-cases, bit_and,
}
use bitcoin_script.Prelude.Int.{ℤ, pos, negsuc, neg, abs_ℕ, ltb_ℤ}
use bitcoin_script.Prelude.Bits.{bit_and_byte, bit_and_top, bit_or_top}
use bitcoin_script.Engine.Number.{
  element_to_int, int_to_element, magnitude_bytes, set_sign_bit, add_sign,
}
use bitcoin_script.Engine.Number.Value.{magnitude, signed, element_to_int-signed}

-- Little-endian digits with no zero byte at the end.
abbrev pub IsCanonical : Bytes → Type 0
IsCanonical [] = Unit {0}
IsCanonical (b ∷ []) = b ≢ 0
IsCanonical (b ∷ c ∷ rest) = IsCanonical (c ∷ rest)

-- Bitcoin's rule for minimal numbers: the last byte is more than a sign bit, unless the byte
-- before it needs its own highest bit.
abbrev pub IsMinimal : Bytes → Type 0
IsMinimal [] = Unit {0}
IsMinimal (b ∷ []) = b % 128 ≢ 0
IsMinimal (b ∷ c ∷ []) = (c % 128 ≢ 0) ⊎ (128 ≤ b)
IsMinimal (b ∷ c ∷ d ∷ rest) = IsMinimal (c ∷ d ∷ rest)

pub magnitude_bytes-IsByte : (fuel n : ℕ) → All IsByte (magnitude_bytes fuel n)
unfolding magnitude_bytes
magnitude_bytes-IsByte zero n = tt
magnitude_bytes-IsByte (suc fuel) n =
    ground (arith, bit_and_byte n, magnitude_bytes-IsByte fuel (n / 256))

pub from_le-magnitude_bytes : (fuel n : ℕ) → n ≤ fuel → from_le (magnitude_bytes fuel n) ≡ n
unfolding magnitude_bytes
from_le-magnitude_bytes zero n h = omega arith
from_le-magnitude_bytes (suc fuel) n h =
    ground (arith, bit_and_byte n, from_le-magnitude_bytes fuel (n / 256) (omega arith))

IsCanonical-tail : (b : ℕ) (ds : Bytes) → IsCanonical (b ∷ ds) → IsCanonical ds
IsCanonical-tail b [] h = tt
IsCanonical-tail b (c ∷ ds) h = h

pub IsCanonical-cons :
    (b : ℕ) (ds : Bytes) → (ds ≡ [] → b ≢ 0) → IsCanonical ds → IsCanonical (b ∷ ds)
IsCanonical-cons b [] first h = first refl
IsCanonical-cons b (c ∷ ds) first h = h

pub canonical_pos : (b : ℕ) (ds : Bytes) → IsCanonical (b ∷ ds) → 0 < from_le (b ∷ ds)
canonical_pos b [] h = omega arith
canonical_pos b (c ∷ ds) h = omega (arith, canonical_pos c ds h)

-- The digits of a number are unique.
pub magnitude_bytes-from_le :
    (fuel : ℕ) (ds : Bytes)
    → All IsByte ds
    → IsCanonical ds
    → from_le ds ≤ fuel
    → magnitude_bytes fuel (from_le ds) ≡ ds
unfolding magnitude_bytes
magnitude_bytes-from_le zero [] bytes c h = refl
magnitude_bytes-from_le (suc fuel) [] bytes c h = refl
magnitude_bytes-from_le zero (b ∷ ds) bytes c h = absurd (omega (arith, canonical_pos b ds c))
magnitude_bytes-from_le (suc fuel) (b ∷ ds) bytes c h =
    let quot : (b + 256 * from_le ds) / 256 ≡ from_le ds = omega arith in
    rw quot (
      ground (
        arith,
        canonical_pos b ds c,
        bit_and_byte (b + 256 * from_le ds),
        magnitude_bytes-from_le fuel ds bytes.1 (IsCanonical-tail b ds c)
            (omega (arith, canonical_pos b ds c)),
      ))

pub magnitude_bytes-IsCanonical : (fuel n : ℕ) → n ≤ fuel → IsCanonical (magnitude_bytes fuel n)
unfolding magnitude_bytes
magnitude_bytes-IsCanonical zero n h = tt
magnitude_bytes-IsCanonical (suc fuel) n h = elim (Bool-cases (n == 0)) [
  | inl none_left ↦ rw none_left tt
  | inr more ↦ rw more (
      IsCanonical-cons (bit_and n 0xff) (magnitude_bytes fuel (n / 2 ^ 8))
        (λ stop. ground (
          arith,
          bit_and_byte n,
          ap from_le stop,
          from_le-magnitude_bytes fuel (n / 256) (omega arith),
        ))
        (magnitude_bytes-IsCanonical fuel (n / 256) (ground arith)))
]

-- One more byte with nothing but a sign bit.
append_sign :
    (b : ℕ) (ds : Bytes) (s : ℕ)
    → s % 128 ≡ 0
    → (magnitude (b ∷ ds ++ s ∷ []) ≡ from_le (b ∷ ds)) × (last_byte (b ∷ ds ++ s ∷ []) ≡ s)
append_sign b [] s h = (omega arith, refl)
append_sign b (c ∷ ds) s h = ground (arith, append_sign c ds s h)

-- The sign bit goes into the last byte.
set_sign_bit_lem :
    (b : ℕ) (ds : Bytes)
    → last_byte (b ∷ ds) < 128
    → (magnitude (set_sign_bit (b ∷ ds)) ≡ from_le (b ∷ ds))
      × (last_byte (set_sign_bit (b ∷ ds)) ≡ last_byte (b ∷ ds) + 128)
unfolding set_sign_bit
set_sign_bit_lem b [] h = ground (arith, bit_or_top b)
set_sign_bit_lem b (c ∷ []) h = ground (arith, set_sign_bit_lem c [] h)
set_sign_bit_lem b (c ∷ d ∷ ds) h = ground (arith, set_sign_bit_lem c (d ∷ ds) h)

magnitude-from_le : (e : Bytes) → last_byte e < 128 → magnitude e ≡ from_le e
magnitude-from_le [] h = refl
magnitude-from_le (b ∷ []) h = omega arith
magnitude-from_le (b ∷ c ∷ e) h = omega (arith, magnitude-from_le (c ∷ e) h)

add_sign-signed :
    (minus : Bool) (b : ℕ) (ds : Bytes)
    → last_byte (b ∷ ds) < 256
    → (magnitude (add_sign minus (b ∷ ds)) ≡ from_le (b ∷ ds))
      × (ltb (last_byte (add_sign minus (b ∷ ds))) 128 ≡ not minus)
unfolding add_sign
add_sign-signed minus b ds h = ground (
  arith,
  bit_and_top (last_byte (b ∷ ds)) h,
  append_sign b ds 0x80 refl,
  append_sign b ds 0x00 refl,
  set_sign_bit_lem b ds,
  magnitude-from_le (b ∷ ds),
)

pub last_byte-IsByte : (e : Bytes) → All IsByte e → last_byte e < 256
last_byte-IsByte [] h = omega arith
last_byte-IsByte (b ∷ []) h = h.0
last_byte-IsByte (b ∷ c ∷ e) h = last_byte-IsByte (c ∷ e) h.1

append-IsByte : (e : Bytes) (s : ℕ) → All IsByte e → IsByte s → All IsByte (e ++ s ∷ [])
append-IsByte [] s h k = (k, tt)
append-IsByte (b ∷ e) s h k = (h.0, append-IsByte e s h.1 k)

set_sign_bit-IsByte : (e : Bytes) → All IsByte e → last_byte e < 128 → All IsByte (set_sign_bit e)
unfolding set_sign_bit
set_sign_bit-IsByte [] h k = tt
set_sign_bit-IsByte (b ∷ []) h k = ground (arith, bit_or_top b)
set_sign_bit-IsByte (b ∷ c ∷ e) h k = (h.0, set_sign_bit-IsByte (c ∷ e) h.1 k)

add_sign-IsByte : (minus : Bool) (e : Bytes) → All IsByte e → All IsByte (add_sign minus e)
unfolding add_sign
add_sign-IsByte minus e h = ground (
  arith,
  bit_and_top (last_byte e) (last_byte-IsByte e h),
  append-IsByte e 0x80 h,
  append-IsByte e 0x00 h,
  set_sign_bit-IsByte e h,
)

pub int_to_element-IsByte : (v : ℤ) → All IsByte (int_to_element v)
unfolding int_to_element
int_to_element-IsByte v = ground (
  arith,
  add_sign-IsByte (ltb_ℤ v (pos 0)) (magnitude_bytes (abs_ℕ v) (abs_ℕ v))
      (magnitude_bytes-IsByte (abs_ℕ v) (abs_ℕ v)),
)

signed-add_sign :
    (minus : Bool) (n : ℕ) (ds : Bytes)
    → from_le ds ≡ n
    → 0 < n
    → All IsByte ds
    → signed (add_sign minus ds) ≡ (if minus then neg (pos n) else pos n)
signed-add_sign minus n [] e h bytes = absurd (omega arith)
signed-add_sign minus n (b ∷ ds) e h bytes =
    ground (arith, add_sign-signed minus b ds (last_byte-IsByte (b ∷ ds) bytes))

pub encode_pos :
    (n : ℕ) → int_to_element (pos (suc n)) ≡ add_sign false (magnitude_bytes (suc n) (suc n))
unfolding int_to_element
encode_pos n = let e : suc n + 0 ≡ suc n = omega arith in rw e (ground arith)

pub encode_negsuc :
    (n : ℕ) → int_to_element (negsuc n) ≡ add_sign true (magnitude_bytes (suc n) (suc n))
unfolding int_to_element
encode_negsuc n = let e : 0 + suc n ≡ suc n = omega arith in rw e (ground arith)

encoded-signed : (v : ℤ) → signed (int_to_element v) ≡ v
encoded-signed (pos zero) = unfold int_to_element in refl
encoded-signed (pos (suc n)) = rw (encode_pos n) (
    signed-add_sign false (suc n) (magnitude_bytes (suc n) (suc n))
      (from_le-magnitude_bytes (suc n) (suc n) (omega arith)) (omega arith)
      (magnitude_bytes-IsByte (suc n) (suc n)))
encoded-signed (negsuc n) = rw (encode_negsuc n) (
    signed-add_sign true (suc n) (magnitude_bytes (suc n) (suc n))
      (from_le-magnitude_bytes (suc n) (suc n) (omega arith)) (omega arith)
      (magnitude_bytes-IsByte (suc n) (suc n))
    ∙ (unfold neg in ground arith))

-- Decoding an encoded integer gives it back, for every integer.
pub element_to_int-int_to_element : (v : ℤ) → element_to_int (int_to_element v) ≡ v
element_to_int-int_to_element v =
    element_to_int-signed (int_to_element v) (int_to_element-IsByte v) ∙ encoded-signed v
