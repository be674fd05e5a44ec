-- ===== src/Prelude/Little.antt =====
-- Numbers as bytes, the low byte first.
use Prim.Native.Nat.{ℕ, zero, suc, ◌/◌, ◌%◌, ◌^◌, ◌<◌}
use mathlib.Core.Path.{◌≡◌, refl}
use mathlib.Core.Option.{Option, none, some}
use mathlib.Core.List.{[], ◌∷◌}
use native.Mathlib.Omega.{arith}
use native.Mathlib.Nat.{pow-suc}
use bitcoin_script.Prelude.Tests.{ltb, if◌then◌else◌}
use bitcoin_script.Prelude.Lists.{Bytes, IsByte, All, length, from_le}

-- The low `width` bytes of a number.
abbrev pub to_le : ℕ → ℕ → Bytes
to_le zero n = []
to_le (suc width) n = n % 256 ∷ to_le width (n / 256)

-- `n.to_bytes(width, "little")`, and `struct.pack` of an unsigned number: Python raises where the
-- number does not fit.
unfoldable pub to_bytes_le : ℕ → ℕ → Option Bytes
to_bytes_le width n = if ltb n (256 ^ width) then some (to_le width n) else none

pub length-to_le : (width n : ℕ) → length (to_le width n) ≡ width
length-to_le zero n = refl
length-to_le (suc width) n = omega (arith, length-to_le width (n / 256))

pub from_le-to_le : (width n : ℕ) → n < 256 ^ width → from_le (to_le width n) ≡ n
from_le-to_le zero n h = omega (arith, h)
from_le-to_le (suc width) n h = omega (
  arith,
  h,
  pow-suc 256 width,
  from_le-to_le width (n / 256) (omega (arith, h, pow-suc 256 width)),
)

pub to_le-IsByte : (width n : ℕ) → All IsByte (to_le width n)
to_le-IsByte zero n = tt
to_le-IsByte (suc width) n = (omega arith, to_le-IsByte width (n / 256))
