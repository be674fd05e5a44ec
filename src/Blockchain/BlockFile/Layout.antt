-- ===== src/Blockchain/BlockFile/Layout.antt =====
-- Masked bytes, and the records of a blk file.
use bitcoin_script.Prelude.{
  ℕ, zero, suc, ◌+◌, ◌≡◌, ◌<◌, refl, ap, ◌∙◌, none, some, [], ◌∷◌, ◌++◌, Bytes, length, take, drop,
  length-append, take-append, drop-append, bit_xor, arith,
}
use mathlib.Core.Path.{subst}
use Prim.Native.Nat.{◌^◌}
use bitcoin_script.Prelude.Bits.{bit_xor_twice}
use bitcoin_script.Prelude.Little.{to_le, length-to_le, from_le-to_le}
use bitcoin_script.Blockchain.BlockFile.{
  XorKey, no_key, xor_key, key_byte, xor_bytes, unmask, Parser, read_header, header_size,
}

module _ (k : ℕ) (ks : Bytes) where
  xor_bytes_twice : (f : Bytes) (o : ℕ) → xor_bytes (xor_bytes f k ks o) k ks o ≡ f
  unfolding xor_bytes
  xor_bytes_twice [] o = refl
  xor_bytes_twice (b ∷ f) o =
      ap (λ (x : ℕ). x ∷ xor_bytes (xor_bytes f k ks (o + 1)) k ks (o + 1))
        (bit_xor_twice b (key_byte k ks o))
      ∙ ap (λ (t : Bytes). b ∷ t) (xor_bytes_twice f (o + 1))

  take-xor_bytes :
      (n : ℕ) (f : Bytes) (o : ℕ) → take n (xor_bytes f k ks o) ≡ xor_bytes (take n f) k ks o
  unfolding xor_bytes
  take-xor_bytes zero f o = refl
  take-xor_bytes (suc n) [] o = refl
  take-xor_bytes (suc n) (b ∷ f) o =
      ap (λ (t : Bytes). bit_xor b (key_byte k ks o) ∷ t) (take-xor_bytes n f (o + 1))

  drop-xor_bytes :
      (n : ℕ) (f : Bytes) (o p : ℕ)
      → p ≡ o + n
      → drop n (xor_bytes f k ks o) ≡ xor_bytes (drop n f) k ks p
  unfolding xor_bytes
  drop-xor_bytes zero f o p e = ap (λ (i : ℕ). xor_bytes f k ks i) (omega (arith, e))
  drop-xor_bytes (suc n) [] o p e = refl
  drop-xor_bytes (suc n) (b ∷ f) o p e = drop-xor_bytes n f (o + 1) p (omega (arith, e))

  length-xor_bytes : (f : Bytes) (o : ℕ) → length (xor_bytes f k ks o) ≡ length f
  unfolding xor_bytes
  length-xor_bytes [] o = refl
  length-xor_bytes (b ∷ f) o = omega (arith, length-xor_bytes f (o + 1))

-- Masking at the same offset twice gives the bytes back.
pub unmask_twice : (key : XorKey) (f : Bytes) (o : ℕ) → unmask key (unmask key f o) o ≡ f
unfolding unmask
unmask_twice no_key f o = refl
unmask_twice (xor_key k ks) f o = xor_bytes_twice k ks f o

pub take-unmask :
    (key : XorKey) (n : ℕ) (f : Bytes) (o : ℕ) → take n (unmask key f o) ≡ unmask key (take n f) o
unfolding unmask
take-unmask no_key n f o = refl
take-unmask (xor_key k ks) n f o = take-xor_bytes k ks n f o

pub drop-unmask :
    (key : XorKey) (n : ℕ) (f : Bytes) (o p : ℕ)
    → p ≡ o + n
    → drop n (unmask key f o) ≡ unmask key (drop n f) p
unfolding unmask
drop-unmask no_key n f o p e = refl
drop-unmask (xor_key k ks) n f o p e = drop-xor_bytes k ks n f o p e

pub length-unmask : (key : XorKey) (f : Bytes) (o : ℕ) → length (unmask key f o) ≡ length f
unfolding unmask
length-unmask no_key f o = refl
length-unmask (xor_key k ks) f o = length-xor_bytes k ks f o

-- What the program reads of masked bytes is the plain bytes.
pub read_plain :
    (key : XorKey) (n : ℕ) (f : Bytes) (o : ℕ) → unmask key (take n (unmask key f o)) o ≡ take n f
read_plain key n f o =
    ap (λ (t : Bytes). unmask key t o) (take-unmask key n f o) ∙ unmask_twice key (take n f) o

-- The header of a block, as Bitcoin Core writes it.
abbrev pub header_of : Bytes → ℕ → Bytes
header_of magic size = magic ++ to_le 4 size

header_length : (magic : Bytes) (size : ℕ) → length magic ≡ 4 → length (header_of magic size) ≡ 8
header_length magic size h =
    omega (arith, h, length-append magic (to_le 4 size), length-to_le 4 size)

take_exact : (n : ℕ) (xs ys : Bytes) → length xs ≡ n → take n (xs ++ ys) ≡ xs
take_exact n xs ys h = subst (λ (i : ℕ). take i (xs ++ ys) ≡ xs) h (take-append xs ys)

drop_exact : (n : ℕ) (xs ys : Bytes) → length xs ≡ n → drop n (xs ++ ys) ≡ ys
drop_exact n xs ys h = subst (λ (i : ℕ). drop i (xs ++ ys) ≡ ys) h (drop-append xs ys)

module _ {Block : Type 0} (parser : Parser Block) (four : length parser.magic ≡ 4) where
  -- The header of a written block reads as the magic and the size.
  pub read_header_written :
      (offset size : ℕ) (rest : Bytes)
      → size < 256 ^ 4
      → read_header parser offset (unmask parser.key (header_of parser.magic size ++ rest) offset)
        ≡ some (parser.magic, size)
  unfolding read_header
  read_header_written offset size rest h =
      let plain = header_of parser.magic size ++ rest in
      let shown : unmask parser.key (take header_size (unmask parser.key plain offset)) offset
          ≡ header_of parser.magic size =
        read_plain parser.key 8 plain offset
        ∙ take_exact 8 (header_of parser.magic size) rest (header_length parser.magic size four) in
      let long : length (take header_size (unmask parser.key plain offset)) ≡ 8 =
        ap length (take-unmask parser.key 8 plain offset)
        ∙ length-unmask parser.key (take 8 plain) offset
        ∙ ap length
            (take_exact 8 (header_of parser.magic size) rest (header_length parser.magic size four))
        ∙ header_length parser.magic size four in
      rw
        (
          long,
          shown,
          take_exact 4 parser.magic (to_le 4 size) four,
          drop_exact 4 parser.magic (to_le 4 size) four,
          from_le-to_le 4 size h,
        )
        refl

  -- Behind the header stands the block, masked from its own offset.
  pub behind_header :
      (offset size : ℕ) (rest : Bytes)
      → drop header_size (unmask parser.key (header_of parser.magic size ++ rest) offset)
        ≡ unmask parser.key rest (offset + header_size)
  behind_header offset size rest =
      drop-unmask parser.key 8 (header_of parser.magic size ++ rest) offset (offset + 8) refl
      ∙ ap (λ (t : Bytes). unmask parser.key t (offset + 8))
          (drop_exact 8 (header_of parser.magic size) rest (header_length parser.magic size four))

pub unmask-nil : (key : XorKey) (o : ℕ) → unmask key [] o ≡ []
unfolding unmask xor_bytes
unmask-nil no_key o = refl
unmask-nil (xor_key k ks) o = refl

pub read_header-nil :
    {Block : Type 0} (parser : Parser Block) (o : ℕ) → read_header parser o [] ≡ none
unfolding read_header
read_header-nil parser o = refl
