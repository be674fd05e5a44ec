-- ===== src/Blockchain/Pack/Makes.antt =====
-- Encodings that do not raise.
use bitcoin_script.Prelude.{
  ℕ, ◌+◌, ◌-◌, ◌/◌, ◌^◌, ◌<◌, ◌≤◌, ◌≡◌, refl, Option, some, List, [], ◌∷◌, ◌++◌, Bytes, length,
  length-append, arith,
}
use bitcoin_script.Prelude.Int.{ℤ, pos, negsuc}
use bitcoin_script.Prelude.Little.{to_le, to_bytes_le, length-to_le}
use bitcoin_script.Blockchain.Pack.{pack_signed, sized, both, joined, compact_size}
use bitcoin_script.Blockchain.Pack.Sizes.{compact_size_lem, compact_bytes, fits}

-- The bytes are made, and there are this many.
abbrev pub Makes : Option Bytes → ℕ → Type 0
Makes o n = (b : Bytes) × (o ≡ some b) × (length b ≡ n)

abbrev pub IsMade : Option Bytes → Type 0
IsMade o = (b : Bytes) × (o ≡ some b)

pub Makes-both :
    (a b : Option Bytes) (n m k : ℕ) → Makes a n → Makes b m → k ≡ n + m → Makes (both a b) k
unfolding both
Makes-both a b n m k (x, e, h) (y, f, l) s =
    (x ++ y, rw (both, e, f) refl, omega (arith, length-append x y, h, l, s))

pub IsMade-both : (a b : Option Bytes) → IsMade a → IsMade b → IsMade (both a b)
unfolding both
IsMade-both a b (x, e) (y, f) = (x ++ y, rw (both, e, f) refl)

pub Makes-nil : Makes (joined []) 0
unfolding joined
Makes-nil = ([], refl, refl)

pub Makes-cons :
    (p : Option Bytes) (ps : List (Option Bytes)) (n m k : ℕ)
    → Makes p n
    → Makes (joined ps) m
    → k ≡ n + m
    → Makes (joined (p ∷ ps)) k
unfolding joined
Makes-cons p ps n m k h r s = Makes-both p (joined ps) n m k h r s

pub Makes-some : (b : Bytes) → Makes (some b) (length b)
Makes-some b = (b, refl, refl)

pub Makes-to_bytes_le : (width n : ℕ) → n < 256 ^ width → Makes (to_bytes_le width n) width
Makes-to_bytes_le width n h = (to_le width n, fits width n h, length-to_le width n)

-- The numbers that `struct.pack` takes as signed ones.
abbrev pub IsSigned : ℕ → ℤ → Type 0
IsSigned width (pos n) = n < 256 ^ width / 2
IsSigned width (negsuc n) = n < 256 ^ width / 2

pub Makes-pack_signed : (width : ℕ) (n : ℤ) → IsSigned width n → Makes (pack_signed width n) width
unfolding pack_signed
Makes-pack_signed width (pos n) h = (to_le width n, ground (arith, h), length-to_le width n)
Makes-pack_signed width (negsuc n) h =
    (to_le width (256 ^ width - 1 - n), ground (arith, h), length-to_le width (256 ^ width - 1 - n))

abbrev pub IsSizable : Bytes → Type 0
IsSizable b = length b < 256 ^ 8

pub IsMade-sized : (b : Bytes) → IsSizable b → IsMade (sized b)
unfolding sized
IsMade-sized b h =
    IsMade-both (compact_size (length b)) (some b)
      (compact_bytes (length b), compact_size_lem (length b) h) (b, refl)

abbrev pub AllMake : List (Option Bytes) → List ℕ → Type 0
AllMake [] [] = Unit {0}
AllMake [] (n ∷ ns) = ⊥
AllMake (p ∷ ps) [] = ⊥
AllMake (p ∷ ps) (n ∷ ns) = Makes p n × AllMake ps ns

abbrev pub sum : List ℕ → ℕ
sum [] = 0
sum (n ∷ ns) = n + sum ns

-- A message has the sum of its parts' lengths.
pub Makes-joined :
    (ps : List (Option Bytes)) (ns : List ℕ) → AllMake ps ns → Makes (joined ps) (sum ns)
Makes-joined [] [] h = Makes-nil
Makes-joined [] (n ∷ ns) h = absurd h
Makes-joined (p ∷ ps) [] h = absurd h
Makes-joined (p ∷ ps) (n ∷ ns) (h, more) =
    Makes-cons p ps n (sum ns) (n + sum ns) h (Makes-joined ps ns more) refl

-- A string of at most 252 bytes has one byte for its size.
pub Makes-sized : (b : Bytes) (n : ℕ) → length b ≡ n → n ≤ 252 → Makes (sized b) (1 + n)
unfolding sized
Makes-sized b n h k =
    Makes-both (compact_size (length b)) (some b) 1 n (1 + n)
      (
        compact_bytes (length b),
        compact_size_lem (length b) (omega (arith, h, k)),
        (ground (arith, h, k)),
      )
      (b, refl, h) refl
