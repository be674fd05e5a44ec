-- ===== src/Engine/Number/Minimal.antt =====
-- `int_to_element` writes minimal encodings, and every minimal encoding is written by it.
use bitcoin_script.Prelude.{
  ℕ, zero, suc, ◌%◌, ◌<◌, ◌≡◌, ◌≢◌, inl, inr, refl, ap, ◌∙◌, Bool, true, false, [], ◌∷◌, Bytes,
  IsByte, All, last_byte, from_le, leb, if◌then◌else◌, ◌==◌, arith, Bool-cases,
}
use bitcoin_script.Prelude.Int.{ℤ, pos, negsuc, neg}
use bitcoin_script.Prelude.Bits.{bit_and_top, bit_or_top}
use bitcoin_script.Engine.Number.{element_to_int, int_to_element, magnitude_bytes, add_sign}
use bitcoin_script.Engine.Number.Value.{magnitude, signed, element_to_int-signed}
use bitcoin_script.Engine.Number.RoundTrip.{
  IsMinimal, IsCanonical, magnitude_bytes-IsByte, from_le-magnitude_bytes, magnitude_bytes-from_le,
  magnitude_bytes-IsCanonical, encode_pos, encode_negsuc,
}

-- The digits that are left when the sign bit is taken off.
strip : Bytes → Bytes
strip [] = []
strip (b ∷ []) = if b % 128 == 0 then [] else b % 128 ∷ []
strip (b ∷ c ∷ rest) = b ∷ strip (c ∷ rest)

strip-IsByte : (e : Bytes) → All IsByte e → All IsByte (strip e)
unfolding strip
strip-IsByte [] h = tt
strip-IsByte (b ∷ []) h = ground arith
strip-IsByte (b ∷ c ∷ e) h = (h.0, strip-IsByte (c ∷ e) h.1)

from_le-strip : (e : Bytes) → from_le (strip e) ≡ magnitude e
unfolding strip
from_le-strip [] = refl
from_le-strip (b ∷ []) = ground arith
from_le-strip (b ∷ c ∷ e) = omega (arith, from_le-strip (c ∷ e))

strip-IsCanonical : (e : Bytes) → IsMinimal e → IsCanonical (strip e)
unfolding strip
strip-IsCanonical [] h = tt
strip-IsCanonical (b ∷ []) h = ground arith
strip-IsCanonical (b ∷ c ∷ []) h = elim (Bool-cases (c % 128 == 0)) [
  | inl bare ↦ rw bare (ground arith)
  | inr more ↦ rw more (ground arith)
]
strip-IsCanonical (b ∷ c ∷ d ∷ e) h = strip-IsCanonical (c ∷ d ∷ e) h

add_sign-cons :
    (minus : Bool) (b c : ℕ) (e : Bytes) → add_sign minus (b ∷ c ∷ e) ≡ b ∷ add_sign minus (c ∷ e)
unfolding add_sign
add_sign-cons minus b c e = ground arith

add_sign-strip :
    (e : Bytes)
    → All IsByte e
    → IsMinimal e
    → e ≢ []
    → add_sign (leb 128 (last_byte e)) (strip e) ≡ e
unfolding strip
add_sign-strip [] bytes h some_byte = absurd (some_byte refl)
add_sign-strip (b ∷ []) bytes h some_byte =
    unfold add_sign in
    ground (arith, bit_and_top (b % 128) (omega arith), bit_or_top (b % 128) (omega arith))
add_sign-strip (b ∷ c ∷ []) bytes h some_byte = elim (Bool-cases (c % 128 == 0)) [
  | inl bare ↦ rw bare (unfold add_sign in ground (arith, bit_and_top b bytes.0))
  | inr more ↦ rw more (
      add_sign-cons (leb 128 c) b (c % 128) []
      ∙ ap (λ (t : Bytes). b ∷ t)
          (unfold add_sign in
            ground
              (arith, bit_and_top (c % 128) (omega arith), bit_or_top (c % 128) (omega arith))))
]
add_sign-strip (b ∷ c ∷ d ∷ e) bytes h some_byte =
    add_sign-cons (leb 128 (last_byte (d ∷ e))) b c (strip (d ∷ e))
    ∙ ap (λ (t : Bytes). b ∷ t) (add_sign-strip (c ∷ d ∷ e) bytes.1 h (λ q. cc))

magnitude_pos : (b : ℕ) (e : Bytes) → IsMinimal (b ∷ e) → 0 < magnitude (b ∷ e)
magnitude_pos b [] h = omega arith
magnitude_pos b (c ∷ []) h = omega arith
magnitude_pos b (c ∷ d ∷ e) h = omega (arith, magnitude_pos c (d ∷ e) h)

-- An integer that is not zero, by its sign and its size.
encode_signed :
    (minus : Bool) (n : ℕ)
    → 0 < n
    → int_to_element (if minus then neg (pos n) else pos n) ≡ add_sign minus (magnitude_bytes n n)
encode_signed minus zero h = absurd (omega arith)
encode_signed true (suc n) h =
    let e : neg (pos (suc n)) ≡ negsuc n = unfold neg in ground arith in rw e (encode_negsuc n)
encode_signed false (suc n) h = encode_pos n

signed_minus :
    (e : Bytes)
    → signed e ≡ (if leb 128 (last_byte e) then neg (pos (magnitude e)) else pos (magnitude e))
signed_minus e = ground arith

-- Encoding a decoded number gives back the bytes, if they are the minimal form.
pub int_to_element-element_to_int :
    (e : Bytes) → All IsByte e → IsMinimal e → int_to_element (element_to_int e) ≡ e
int_to_element-element_to_int [] bytes h = unfold int_to_element element_to_int in refl
int_to_element-element_to_int (b ∷ e) bytes h =
    let minus = leb 128 (last_byte (b ∷ e)) in
    let n = magnitude (b ∷ e) in
    let digits : magnitude_bytes n (from_le (strip (b ∷ e))) ≡ strip (b ∷ e) =
      magnitude_bytes-from_le n (strip (b ∷ e)) (strip-IsByte (b ∷ e) bytes)
        (strip-IsCanonical (b ∷ e) h) (omega (arith, from_le-strip (b ∷ e))) in
    ap int_to_element (element_to_int-signed (b ∷ e) bytes ∙ signed_minus (b ∷ e))
    ∙ encode_signed minus n (magnitude_pos b e h)
    ∙ ap (add_sign minus) (rw (from_le-strip (b ∷ e)) at digits)
    ∙ add_sign-strip (b ∷ e) bytes h (λ q. cc)

IsMinimal-cons : (b : ℕ) (e : Bytes) → e ≢ [] → IsMinimal e → IsMinimal (b ∷ e)
IsMinimal-cons b [] some_byte h = absurd (some_byte refl)
IsMinimal-cons b (c ∷ []) some_byte h = inl h
IsMinimal-cons b (c ∷ d ∷ e) some_byte h = h

add_sign-ne_nil : (minus : Bool) (b : ℕ) (e : Bytes) → add_sign minus (b ∷ e) ≢ []
unfolding add_sign
add_sign-ne_nil minus b [] = ground arith
add_sign-ne_nil minus b (c ∷ e) = ground arith

add_sign-IsMinimal :
    (minus : Bool) (b : ℕ) (e : Bytes)
    → All IsByte (b ∷ e)
    → IsCanonical (b ∷ e)
    → IsMinimal (add_sign minus (b ∷ e))
add_sign-IsMinimal minus b [] bytes h =
    unfold add_sign in ground (arith, bit_and_top b bytes.0, bit_or_top b)
add_sign-IsMinimal minus b (c ∷ e) bytes h = rw (add_sign-cons minus b c e) (
    IsMinimal-cons b (add_sign minus (c ∷ e)) (add_sign-ne_nil minus c e)
      (add_sign-IsMinimal minus c e bytes.1 h))

IsMinimal-of_digits :
    (minus : Bool) (n : ℕ) (ds : Bytes)
    → from_le ds ≡ n
    → 0 < n
    → All IsByte ds
    → IsCanonical ds
    → IsMinimal (add_sign minus ds)
IsMinimal-of_digits minus n [] e h bytes c = absurd (omega arith)
IsMinimal-of_digits minus n (b ∷ ds) e h bytes c = add_sign-IsMinimal minus b ds bytes c

digits-IsMinimal :
    (minus : Bool) (n : ℕ) → IsMinimal (add_sign minus (magnitude_bytes (suc n) (suc n)))
digits-IsMinimal minus n =
    IsMinimal-of_digits minus (suc n) (magnitude_bytes (suc n) (suc n))
      (from_le-magnitude_bytes (suc n) (suc n) (omega arith)) (omega arith)
      (magnitude_bytes-IsByte (suc n) (suc n))
      (magnitude_bytes-IsCanonical (suc n) (suc n) (omega arith))

-- Every integer is written in the minimal form.
pub int_to_element-IsMinimal : (v : ℤ) → IsMinimal (int_to_element v)
int_to_element-IsMinimal (pos zero) = unfold int_to_element in tt
int_to_element-IsMinimal (pos (suc n)) = rw (encode_pos n) (digits-IsMinimal false n)
int_to_element-IsMinimal (negsuc n) = rw (encode_negsuc n) (digits-IsMinimal true n)
