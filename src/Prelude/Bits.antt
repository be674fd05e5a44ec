-- ===== src/Prelude/Bits.antt =====
-- `&`, `|` and `^` of Python's integers as arithmetic, where a mask or disjoint fields allow it.
use Prim.Native.Nat.{ℕ, zero, suc, ◌+◌, ◌*◌, ◌/◌, ◌%◌, ◌^◌, ◌≤◌, ◌<◌, min, max}
use Prim.Native.Nat.{
  digits, differ, bit_and, bit_or, bit_xor, bit_and-bitwise, bit_or-bitwise, bit_xor-bitwise,
}
use mathlib.Core.Path.{◌≡◌, refl, ap, ◌∙◌}
use mathlib.Core.Bool.{Bool, true, ◌&&◌}
use native.Mathlib.Omega.{arith}
use native.Mathlib.Nat.{pow-suc}
use bitcoin_script.Prelude.Tests.{◌==◌}

-- The fuel of `digits` does not matter once it is as large as the first number.
digits_enough :
    (z : ℕ → ℕ) (f : ℕ → ℕ → ℕ) (n m a b : ℕ) → a ≤ n → a ≤ m → digits z f n a b ≡ digits z f m a b
digits_enough z f zero zero a b p q = refl
digits_enough z f zero (suc m) zero b p q = refl
digits_enough z f zero (suc m) (suc a) b p q = absurd (omega arith)
digits_enough z f (suc n) zero zero b p q = refl
digits_enough z f (suc n) zero (suc a) b p q = absurd (omega arith)
digits_enough z f (suc n) (suc m) zero b p q = refl
digits_enough z f (suc n) (suc m) (suc a) b p q =
    omega (arith, digits_enough z f n m (suc a / 2) (b / 2) (omega arith) (omega arith))

differ-zero : (b : ℕ) → b < 2 → differ 0 b ≡ b
differ-zero b h = ground arith

differ_digit_zero : (b : ℕ) → b < 2 → differ b 0 ≡ b
differ_digit_zero zero h = refl
differ_digit_zero (suc b) h = refl

zero_or : (b : ℕ) → bit_or 0 b ≡ b
zero_or b = bit_or-bitwise 0 b

pub bit_or_step : (a b : ℕ) → bit_or a b ≡ bit_or (a / 2) (b / 2) * 2 + max (a % 2) (b % 2)
bit_or_step zero b = omega (arith, bit_or-bitwise 0 b, bit_or-bitwise 0 (b / 2))
bit_or_step (suc a) b = omega (
  arith,
  bit_or-bitwise (suc a) b,
  bit_or-bitwise (suc a / 2) (b / 2),
  digits_enough (λ y. y) max a (suc a / 2) (suc a / 2) (b / 2) (omega arith) (omega arith),
)

pub bit_xor_step : (a b : ℕ) → bit_xor a b ≡ bit_xor (a / 2) (b / 2) * 2 + differ (a % 2) (b % 2)
bit_xor_step zero b =
    omega (arith, bit_xor-bitwise 0 b, bit_xor-bitwise 0 (b / 2), differ-zero (b % 2) (omega arith))
bit_xor_step (suc a) b = omega (
  arith,
  bit_xor-bitwise (suc a) b,
  bit_xor-bitwise (suc a / 2) (b / 2),
  digits_enough (λ y. y) differ a (suc a / 2) (suc a / 2) (b / 2) (omega arith) (omega arith),
)

pub bit_and_step : (a b : ℕ) → bit_and a b ≡ bit_and (a / 2) (b / 2) * 2 + min (a % 2) (b % 2)
bit_and_step zero b = omega (arith, bit_and-bitwise 0 b, bit_and-bitwise 0 (b / 2))
bit_and_step (suc a) b = omega (
  arith,
  bit_and-bitwise (suc a) b,
  bit_and-bitwise (suc a / 2) (b / 2),
  digits_enough (λ y. 0) min a (suc a / 2) (suc a / 2) (b / 2) (omega arith) (omega arith),
)

pub zero_and : (b : ℕ) → bit_and 0 b ≡ 0
zero_and b = bit_and-bitwise 0 b

zero_below : (n a : ℕ) → a ≤ n → (bit_and a 0 ≡ 0) × (bit_or a 0 ≡ a) × (bit_xor a 0 ≡ a)
zero_below n zero h = (refl, refl, refl)
zero_below zero (suc a) h = absurd (omega arith)
zero_below (suc n) (suc a) h =
    let (ih_and, ih_or, ih_xor) = zero_below n (suc a / 2) (omega arith) in
    (
      omega (arith, bit_and_step (suc a) 0, ih_and),
      omega (arith, bit_or_step (suc a) 0, ih_or),
      omega (arith, bit_xor_step (suc a) 0, ih_xor, differ_digit_zero (suc a % 2) (omega arith)),
    )

pub bit_or-zero : (a : ℕ) → bit_or a 0 ≡ a
bit_or-zero a = (zero_below a a (omega arith)).1

bit_and-one : (a : ℕ) → bit_and a 1 ≡ a % 2
bit_and-one a = omega (arith, bit_and_step a 1, (zero_below (a / 2) (a / 2) (omega arith)).0)

bit_and_three : (a : ℕ) → bit_and a 3 ≡ a % 4
bit_and_three a = omega (arith, bit_and_step a 3, bit_and-one (a / 2))

bit_and_fifteen : (a : ℕ) → bit_and a 15 ≡ a % 16
bit_and_fifteen a =
    omega (arith, bit_and_step a 15, bit_and_step (a / 2) 7, bit_and_three (a / 2 / 2))

bit_and_sixty_three : (a : ℕ) → bit_and a 63 ≡ a % 64
bit_and_sixty_three a =
    omega (arith, bit_and_step a 63, bit_and_step (a / 2) 31, bit_and_fifteen (a / 2 / 2))

-- `a & 0xFF` and `a & 0x7F`
pub bit_and_byte : (a : ℕ) → bit_and a 0xff ≡ a % 256
bit_and_byte a =
    omega (arith, bit_and_step a 255, bit_and_step (a / 2) 127, bit_and_sixty_three (a / 2 / 2))

pub bit_and_low7 : (a : ℕ) → bit_and a 0x7f ≡ a % 128
bit_and_low7 a = omega (arith, bit_and_step a 127, bit_and_sixty_three (a / 2))

pub two_pow_suc : (q k : ℕ) → q * 2 ^ suc k ≡ 2 * (q * 2 ^ k)
two_pow_suc q k = omega (arith, ap (λ (t : ℕ). q * t) (pow-suc 2 k))

-- `low | (high << k)` is a sum when `low` fits in `k` bits.
pub bit_or_shifted : (k low high : ℕ) → low < 2 ^ k → bit_or low (high * 2 ^ k) ≡ low + high * 2 ^ k
bit_or_shifted zero low high h = ground (arith, zero_or high)
bit_or_shifted (suc k) low high h = ground (
  arith,
  bit_or_step low (high * 2 ^ suc k),
  two_pow_suc high k,
  pow-suc 2 k,
  bit_or_shifted k (low / 2) high (omega (arith, pow-suc 2 k)),
)

-- `(low + (1 << k)) ^ (1 << k)` clears the bit that is set.
pub bit_xor_clear : (k low : ℕ) → low < 2 ^ k → bit_xor (low + 2 ^ k) (2 ^ k) ≡ low
bit_xor_clear zero low h = ground arith
bit_xor_clear (suc k) low h = ground (
  arith,
  bit_xor_step (low + 2 ^ suc k) (2 ^ suc k),
  pow-suc 2 k,
  bit_xor_clear k (low / 2) (omega (arith, pow-suc 2 k)),
  differ_digit_zero (low % 2) (omega arith),
)

-- Over one byte, every value is checked by evaluation.
agree : (ℕ → ℕ) → (ℕ → ℕ) → ℕ → Bool
agree f g zero = true
agree f g (suc n) = (f n == g n) && agree f g n

agree→eq : (f g : ℕ → ℕ) (n : ℕ) → agree f g n ≡ true → (b : ℕ) → b < n → f b ≡ g b
unfolding agree
agree→eq f g zero e b h = absurd (omega arith)
agree→eq f g (suc n) e b h = ground (arith, agree→eq f g n (ground arith) b)

-- `b & 0x80` and `b | 0x80` on a byte
pub bit_and_top : (b : ℕ) → b < 256 → bit_and b 0x80 ≡ b / 128 * 128
unfolding agree
bit_and_top = agree→eq _ _ 256 refl

pub bit_or_top : (b : ℕ) → b < 128 → bit_or b 0x80 ≡ b + 128
unfolding agree
bit_or_top = agree→eq _ _ 128 refl

differ_twice : (p q : ℕ) → p < 2 → q < 2 → (differ p q < 2) × (differ (differ p q) q ≡ p)
differ_twice zero zero h k = (omega arith, refl)
differ_twice zero (suc zero) h k = (omega arith, refl)
differ_twice (suc zero) zero h k = (omega arith, refl)
differ_twice (suc zero) (suc zero) h k = (omega arith, refl)
differ_twice (suc (suc p)) q h k = absurd (omega (arith, h))
differ_twice zero (suc (suc q)) h k = absurd (omega (arith, k))
differ_twice (suc zero) (suc (suc q)) h k = absurd (omega (arith, k))

bit_xor_from_halves :
    (a b : ℕ) → bit_xor (bit_xor (a / 2) (b / 2)) (b / 2) ≡ a / 2 → bit_xor (bit_xor a b) b ≡ a
bit_xor_from_halves a b again =
    let (small, back) = differ_twice (a % 2) (b % 2) (omega arith) (omega arith) in
    let half : bit_xor a b / 2 ≡ bit_xor (a / 2) (b / 2) = omega (arith, bit_xor_step a b) in
    let digit : bit_xor a b % 2 ≡ differ (a % 2) (b % 2) = omega (arith, bit_xor_step a b) in
    bit_xor_step (bit_xor a b) b ∙ (rw (half, digit, again, back) omega arith)

bit_xor_back : (fuel a b : ℕ) → a + b ≤ fuel → bit_xor (bit_xor a b) b ≡ a
bit_xor_back zero zero zero h = refl
bit_xor_back zero (suc a) b h = absurd (omega (arith, h))
bit_xor_back zero zero (suc b) h = absurd (omega (arith, h))
bit_xor_back (suc fuel) zero zero h = refl
bit_xor_back (suc fuel) zero (suc b) h =
    bit_xor_from_halves zero (suc b) (bit_xor_back fuel (zero / 2) (suc b / 2) (omega arith))
bit_xor_back (suc fuel) (suc a) b h =
    bit_xor_from_halves (suc a) b (bit_xor_back fuel (suc a / 2) (b / 2) (omega arith))

-- A number that has been changed by the same mask twice is what it was.
pub bit_xor_twice : (a b : ℕ) → bit_xor (bit_xor a b) b ≡ a
bit_xor_twice a b = bit_xor_back (a + b) a b (omega arith)
