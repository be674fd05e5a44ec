-- ===== src/Engine/Number/Truth.antt =====
-- A stack element is true exactly when the number that it stands for is not zero.
use bitcoin_script.Prelude.{
  ℕ, ◌+◌, ◌*◌, ◌≡◌, refl, ◌∙◌, Bool, true, false, not, [], ◌∷◌, Bytes, IsByte, All, length, ◌==◌,
  arith, Bool-cases, inl, inr,
}
use bitcoin_script.Prelude.Int.{pos, neg, eqb_ℤ}
use bitcoin_script.Engine.Number.{element_to_int, element_to_bool, bool_from, bool_to_element}
use bitcoin_script.Engine.Number.Value.{magnitude, signed, element_to_int-signed}

high_part : (b m : ℕ) → b ≡ 0 → not (m == 0) ≡ not (b + 256 * m == 0)
high_part b m h = ground arith

bool_from-magnitude :
    (len i : ℕ) (e : Bytes)
    → len ≡ i + length e
    → All IsByte e
    → bool_from len i e ≡ not (magnitude e == 0)
unfolding bool_from
bool_from-magnitude len i [] h bytes = refl
bool_from-magnitude len i (b ∷ []) h bytes = ground arith
bool_from-magnitude len i (b ∷ c ∷ e) h bytes = elim (Bool-cases (b == 0)) [
  | inl zero_byte ↦ rw zero_byte (
      bool_from-magnitude len (i + 1) (c ∷ e) (omega arith) bytes.1
      ∙ high_part b (magnitude (c ∷ e)) (ground arith))
  | inr set_byte ↦ rw set_byte (ground arith)
]

signed_zero : (e : Bytes) → eqb_ℤ (signed e) (pos 0) ≡ (magnitude e == 0)
signed_zero e = unfold neg in ground arith

-- On every byte string the two conversions agree: true means not zero, and negative zero, with or
-- without padding, is false.
pub element_to_bool-eq :
    (e : Bytes) → All IsByte e → element_to_bool e ≡ not (eqb_ℤ (element_to_int e) (pos 0))
unfolding element_to_bool
element_to_bool-eq e bytes =
    rw (element_to_int-signed e bytes, signed_zero e)
      (bool_from-magnitude (length e) 0 e (omega arith) bytes)

-- What the engine pushes for a Boolean reads back as that Boolean.
pub element_to_bool-bool_to_element : (b : Bool) → element_to_bool (bool_to_element b) ≡ b
unfolding element_to_bool bool_to_element
element_to_bool-bool_to_element true = refl
element_to_bool-bool_to_element false = refl
