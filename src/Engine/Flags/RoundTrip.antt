-- ===== src/Engine/Flags/RoundTrip.antt =====
-- The names of flags, read back.
use bitcoin_script.Prelude.{
  ℕ, zero, suc, ◌+◌, ◌*◌, ◌/◌, ◌%◌, ◌^◌, ◌<◌, ◌≡◌, refl, sym, ap, ◌∙◌, false, List, [], ◌∷◌, length,
  bit_and, bit_or, ◌==◌, ◌⊎◌, inl, inr, arith,
}
use Prim.Native.Nat.{min}
use native.Mathlib.Nat.{pow-suc}
use bitcoin_script.Prelude.Bits.{bit_and_step, zero_and, bit_or_shifted, two_pow_suc}
use bitcoin_script.Prelude.Text.{Text}
use bitcoin_script.Errors.{ok}
use bitcoin_script.Engine.Flags.{
  members, member_named, comma_parts, split_commas, skip_spaces, drop_spaces, strip, add_flag,
  add_tokens, add_texts, from_names, names_of, names,
}

-- The binary digit of a number at a place, and the number that its lowest digits make.
digit : ℕ → ℕ → ℕ
digit zero f = f % 2
digit (suc k) f = digit k (f / 2)

low_digits : ℕ → ℕ → ℕ
low_digits zero f = 0
low_digits (suc k) f = f % 2 + low_digits k (f / 2) * 2

bit_and_power : (k f : ℕ) → bit_and (2 ^ k) f ≡ digit k f * 2 ^ k
unfolding digit
bit_and_power zero f = omega (arith, bit_and_step 1 f, zero_and (f / 2))
bit_and_power (suc k) f =
    even (2 ^ k) (2 ^ suc k) (pow-suc 2 k)
    ∙ ap (λ n. n * 2) (bit_and_power k (f / 2))
    ∙ twice (digit k (f / 2)) (2 ^ k)
    ∙ ap (λ n. digit k (f / 2) * n) (sym (pow-suc 2 k))
  where
    even : (half n : ℕ) → n ≡ half * 2 → bit_and n f ≡ bit_and half (f / 2) * 2
    even half n e =
        bit_and_step n f ∙ ap (λ h. bit_and h (f / 2) * 2 + min (n % 2) (f % 2)) halved ∙ no_digit
      where
        halved : n / 2 ≡ half
        halved = omega (arith, e)

        no_digit : bit_and half (f / 2) * 2 + min (n % 2) (f % 2) ≡ bit_and half (f / 2) * 2
        no_digit = omega (arith, e)

    twice : (d n : ℕ) → d * n * 2 ≡ d * (n * 2)
    twice d n = omega arith

digit_small : (k f : ℕ) → digit k f < 2
unfolding digit
digit_small zero f = omega arith
digit_small (suc k) f = digit_small k (f / 2)

low_digits_small : (k f : ℕ) → low_digits k f < 2 ^ k
unfolding low_digits
low_digits_small zero f = omega arith
low_digits_small (suc k) f = omega (arith, low_digits_small k (f / 2), pow-suc 2 k)

low_digits_next : (k f : ℕ) → low_digits (suc k) f ≡ low_digits k f + digit k f * 2 ^ k
unfolding low_digits digit
low_digits_next zero f = omega arith
low_digits_next (suc k) f =
    omega (arith, low_digits_next k (f / 2), two_pow_suc (digit k (f / 2)) k)

low_digits_all : (k f : ℕ) → f < 2 ^ k → low_digits k f ≡ f
unfolding low_digits
low_digits_all zero f h = omega (arith, h)
low_digits_all (suc k) f h = omega (arith, low_digits_all k (f / 2) (omega (arith, h, pow-suc 2 k)))

-- A name that is read as its value.
abbrev Reads : Text → ℕ → Type 0
Reads name value =
    (result : ℕ) (rest : List Text)
    → add_texts result (name ∷ rest) ≡ add_texts (bit_or result value) rest

-- The members from the one of digit k, in order.
abbrev Numbered : ℕ → List (Text × ℕ) → Type 0
Numbered k [] = Unit {0}
Numbered k ((name, value) ∷ others) = ((value ≡ 2 ^ k) × Reads name value) × Numbered (suc k) others

members-Numbered : Numbered 0 members
unfolding add_texts add_tokens add_flag split_commas comma_parts strip skip_spaces drop_spaces
    member_named
members-Numbered = (
  (refl, λ result rest. refl),
  (
    (refl, λ result rest. refl),
    (
      (refl, λ result rest. refl),
      (
        (refl, λ result rest. refl),
        (
          (refl, λ result rest. refl),
          (
            (refl, λ result rest. refl),
            (
              (refl, λ result rest. refl),
              (
                (refl, λ result rest. refl),
                (
                  (refl, λ result rest. refl),
                  (
                    (refl, λ result rest. refl),
                    (
                      (refl, λ result rest. refl),
                      (
                        (refl, λ result rest. refl),
                        (
                          (refl, λ result rest. refl),
                          (
                            (refl, λ result rest. refl),
                            (
                              (refl, λ result rest. refl),
                              (
                                (refl, λ result rest. refl),
                                ((refl, λ result rest. refl), ((refl, λ result rest. refl), tt)),
                              ),
                            ),
                          ),
                        ),
                      ),
                    ),
                  ),
                ),
              ),
            ),
          ),
        ),
      ),
    ),
  ),
)

power_pos : (k : ℕ) → 0 < 2 ^ k
power_pos zero = omega arith
power_pos (suc k) = omega (arith, power_pos k, pow-suc 2 k)

all_or_nothing : (d n : ℕ) → d < 2 → (d * n ≡ 0) ⊎ (d * n ≡ n)
all_or_nothing zero n h = inl (omega arith)
all_or_nothing (suc zero) n h = inr (omega arith)
all_or_nothing (suc (suc d)) n h = absurd (omega (arith, h))

-- A bit that is not set changes nothing, and one that is set is added.
unset : (k f : ℕ) → bit_and (2 ^ k) f ≡ 0 → low_digits (suc k) f ≡ low_digits k f
unset k f e = omega (arith, low_digits_next k f, bit_and_power k f, e)

set : (k f : ℕ) → bit_and (2 ^ k) f ≡ 2 ^ k → bit_or (low_digits k f) (2 ^ k) ≡ low_digits (suc k) f
set k f e =
    let once : 2 ^ k ≡ 1 * 2 ^ k = omega arith in
    ap (bit_or (low_digits k f)) once
    ∙ bit_or_shifted k (low_digits k f) 1 (low_digits_small k f)
    ∙ omega (arith, low_digits_next k f, bit_and_power k f, e)

add_texts-names_of :
    (k f : ℕ) (ms : List (Text × ℕ))
    → Numbered k ms
    → add_texts (low_digits k f) (names_of f ms) ≡ ok (low_digits (k + length ms) f)
unfolding add_texts names_of
add_texts-names_of k f [] numbered = ap (λ n. ok (low_digits n f)) (omega arith)
add_texts-names_of k f ((name, value) ∷ others) ((power, reads), numbered) =
    let next : add_texts (low_digits (suc k) f) (names_of f others)
        ≡ ok (low_digits (k + suc (length others)) f) =
      add_texts-names_of (suc k) f others numbered ∙ ap (λ n. ok (low_digits n f)) (omega arith) in
    elim (all_or_nothing (digit k f) (2 ^ k) (digit_small k f)) [
      | inl e ↦
          let zero_bit : bit_and value f ≡ 0 = rw (power) (bit_and_power k f ∙ e) in
          rw (zero_bit) (
            ap (λ n. add_texts n (names_of f others)) (sym (unset k f (bit_and_power k f ∙ e)))
            ∙ next)
      | inr e ↦
          let one_bit : bit_and value f ≡ 2 ^ k = rw (power) (bit_and_power k f ∙ e) in
          let filled : (2 ^ k == 0) ≡ false = ground (arith, power_pos k) in
          rw (one_bit, filled)
            (reads (low_digits k f) (names_of f others)
              ∙ ap (λ n. add_texts n (names_of f others))
                  (ap (bit_or (low_digits k f)) power ∙ set k f (bit_and_power k f ∙ e))
              ∙ next)
    ]

-- The names of flags of 18 bits are read as the same flags.
pub from_names-names : (flags : ℕ) → flags < 2 ^ 18 → from_names (names flags) ≡ ok flags
unfolding from_names names low_digits
from_names-names flags small =
    add_texts-names_of 0 flags members members-Numbered ∙ ap ok (low_digits_all 18 flags small)
