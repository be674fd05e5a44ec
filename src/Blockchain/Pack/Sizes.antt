-- ===== src/Blockchain/Pack/Sizes.antt =====
-- The lengths of encodings, and the decoding of a compact size.
use bitcoin_script.Prelude.{
  ℕ, ◌^◌, ◌<◌, ◌≡◌, refl, ap, Option, none, some, [], ◌∷◌, ◌++◌, Bytes, take, drop, from_le,
  if◌then◌else◌, ◌==◌, leb, arith, Bool-cases, inl, inr,
}
use bitcoin_script.Prelude.Little.{to_le, to_bytes_le, from_le-to_le}
use bitcoin_script.Blockchain.Pack.{prefixed, compact_size}

pub fits : (width n : ℕ) → n < 256 ^ width → to_bytes_le width n ≡ some (to_le width n)
unfolding to_bytes_le
fits width n h = ground (arith, h)

-- The bytes of a compact size.
abbrev pub compact_bytes : ℕ → Bytes
compact_bytes n =
    if leb n 252
    then n ∷ []
    else (if leb n 0xffff
        then 0xfd ∷ to_le 2 n
        else (if leb n 0xffffffff then 0xfe ∷ to_le 4 n else 0xff ∷ to_le 8 n))

pub compact_size_lem : (n : ℕ) → n < 256 ^ 8 → compact_size n ≡ some (compact_bytes n)
unfolding compact_size prefixed
compact_size_lem n h = ground (arith, fits 1 n, fits 2 n, fits 4 n, fits 8 n h)

-- Bitcoin's rule for reading a compact size: the first byte says how many bytes hold the number.
abbrev pub read_compact_size : Bytes → Option (ℕ × Bytes)
read_compact_size [] = none
read_compact_size (b ∷ rest) =
    if leb b 252
    then some (b, rest)
    else (if b == 0xfd
        then some (from_le (take 2 rest), drop 2 rest)
        else (if b == 0xfe
            then some (from_le (take 4 rest), drop 4 rest)
            else some (from_le (take 8 rest), drop 8 rest)))

read_compact_bytes :
    (n : ℕ) (rest : Bytes)
    → n < 256 ^ 8
    → read_compact_size (compact_bytes n ++ rest) ≡ some (n, rest)
read_compact_bytes n rest h = elim (Bool-cases (leb n 252)) [
  | inl a ↦ rw (a, a) refl
  | inr a ↦ elim (Bool-cases (leb n 0xffff)) [
    | inl b ↦ rw (a, b) (ap (λ (k : ℕ). some (k, rest)) (from_le-to_le 2 n (ground (arith, b))))
    | inr b ↦ elim (Bool-cases (leb n 0xffffffff)) [
      | inl c ↦
          rw (a, b, c) (ap (λ (k : ℕ). some (k, rest)) (from_le-to_le 4 n (ground (arith, c))))
      | inr c ↦ rw (a, b, c) (ap (λ (k : ℕ). some (k, rest)) (from_le-to_le 8 n h))
    ]
  ]
]

-- Every number below 2^64 has a compact size, and reading it, whatever bytes follow, gives the number
-- back and leaves those bytes.
pub read_compact_size-compact_size :
    (n : ℕ) (rest : Bytes)
    → n < 256 ^ 8
    → (b : Bytes) × (compact_size n ≡ some b) × (read_compact_size (b ++ rest) ≡ some (n, rest))
read_compact_size-compact_size n rest h =
    (compact_bytes n, compact_size_lem n h, read_compact_bytes n rest h)
