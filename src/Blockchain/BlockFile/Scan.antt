-- ===== src/Blockchain/BlockFile/Scan.antt =====
-- scan_headers and read_block_at on the files that Bitcoin Core writes.
use bitcoin_script.Prelude.{
  ℕ, zero, suc, ◌+◌, ◌≡◌, ◌<◌, ◌≤◌, refl, ap, ◌∙◌, false, Option, some, List, [], ◌∷◌, ◌++◌, map,
  Bytes, All, length, take, drop, bytes_eq_self, length-append, length-take, drop_sum, ltb, arith,
}
use Prim.Native.Nat.{◌^◌}
use bitcoin_script.Blockchain.BlockFile.{
  unmask, header_size, Parser, read_block_at, Location, location, scan_from, scan_file,
}
use bitcoin_script.Blockchain.BlockFile.Layout.{read_plain, length-unmask}
use bitcoin_script.Blockchain.BlockFile.Written.{
  Stored, IsStored, plain_file, masked_file, header_here, body_here, next_here, read_here,
  header_at_end, blocks_le,
}

-- The header of the block is there.
abbrev pub HasHeader : {Block : Type 0} → Stored Block → Type 0
HasHeader s = 80 ≤ length s.raw

take-append_le : (n : ℕ) (xs ys : Bytes) → n ≤ length xs → take n (xs ++ ys) ≡ take n xs
take-append_le zero xs ys h = refl
take-append_le (suc n) [] ys h = absurd (omega (arith, h))
take-append_le (suc n) (x ∷ xs) ys h =
    ap (λ (t : Bytes). x ∷ t) (take-append_le n xs ys (omega (arith, h)))

-- What a location says of a block: its hash, the hash before it, and the block that is read there.
pub record Found (Block : Type 0) : Type 0 where
  pub hash : Bytes
  pub previous : Bytes
  pub block : Option Block

module _ {Block : Type 0} (parser : Parser Block) (sha256 : Bytes → Bytes) where
  abbrev pub look_up : Bytes → Location → Found Block
  look_up file l = record {
    hash = l.block_hash;
    previous = l.prev_hash;
    block = read_block_at parser file l.raw_offset l.size;
  }

  abbrev pub entry_of : Stored Block → Found Block
  entry_of s = record {
    hash = sha256 (sha256 (take 80 s.raw));
    previous = take 32 (drop 4 (take 80 s.raw));
    block = some s.block;
  }

  module _ (four : length parser.magic ≡ 4) (s : Stored Block) (ss : List (Stored Block)) (o : ℕ)
      (fits : length s.raw < 256 ^ 4) (header : HasHeader s) where
    abbrev body : Bytes
    body = drop header_size (masked_file parser (s ∷ ss) o)

    header_shown : unmask parser.key (take 80 body) (o + 8) ≡ take 80 s.raw
    header_shown =
        ap (λ (t : Bytes). unmask parser.key (take 80 t) (o + 8))
          (body_here parser four s ss o fits)
        ∙ read_plain parser.key 80 (s.raw ++ plain_file parser.magic ss) (o + 8)
        ∙ take-append_le 80 s.raw (plain_file parser.magic ss) header

    header_complete : ltb (length (take 80 body)) 80 ≡ false
    header_complete = rw (body_here parser four s ss o fits) ground (
      arith,
      length-take 80 (unmask parser.key (s.raw ++ plain_file parser.magic ss) (o + 8)),
      length-unmask parser.key (s.raw ++ plain_file parser.magic ss) (o + 8),
      length-append s.raw (plain_file parser.magic ss),
      header,
    )

    scan_step :
        (fuel : ℕ)
        → scan_from parser sha256 (suc fuel) o (masked_file parser (s ∷ ss) o)
          ≡ location parser sha256 (o + 8) (length s.raw) body
            ∷ scan_from parser sha256 fuel
                (o + 8 + length s.raw)
                (masked_file parser ss (o + 8 + length s.raw))
    unfolding scan_from
    scan_step fuel =
        rw
          (
            scan_from,
            header_here parser four s ss o fits,
            bytes_eq_self parser.magic,
            header_complete,
            next_here parser four s ss o fits,
          )
          refl

    look_up_here :
        (file : Bytes)
        → drop o file ≡ masked_file parser (s ∷ ss) o
        → parser.deserialize s.raw ≡ some s.block
        → look_up file (location parser sha256 (o + 8) (length s.raw) body) ≡ entry_of s
    unfolding location read_block_at
    look_up_here file e reads =
        let there : drop (o + 8) file ≡ body = drop_sum o 8 (o + 8) file refl ∙ ap (drop 8) e in
        rw (there, header_shown, read_here parser four s ss o fits reads) refl

  scan_from-written :
      (fuel : ℕ) (ss : List (Stored Block)) (o : ℕ) (file : Bytes)
      → length parser.magic ≡ 4
      → drop o file ≡ masked_file parser ss o
      → All (IsStored parser) ss
      → All HasHeader ss
      → length ss ≤ fuel
      → map (look_up file) (scan_from parser sha256 fuel o (masked_file parser ss o))
        ≡ map entry_of ss
  unfolding scan_from
  scan_from-written zero [] o file four e h k enough = refl
  scan_from-written zero (s ∷ ss) o file four e h k enough = absurd (omega (arith, enough))
  scan_from-written (suc fuel) [] o file four e h k enough =
      rw (scan_from, header_at_end parser four o) refl
  scan_from-written (suc fuel) (s ∷ ss) o file four e ((fits, reads), stored) (header, headers)
        enough =
      let behind : drop (o + 8 + length s.raw) file ≡ masked_file parser ss (o + 8 + length s.raw) =
        drop_sum (o + 8) (length s.raw) (o + 8 + length s.raw) file refl
        ∙ ap (drop (length s.raw)) (drop_sum o 8 (o + 8) file refl ∙ ap (drop 8) e)
        ∙ next_here parser four s ss o fits in
      ap (map (look_up file)) (scan_step four s ss o fits header fuel)
      ∙ ap
          (λ (f : Found Block).
            f
            ∷ map (look_up file) (
                scan_from parser sha256 fuel (o + 8 + length s.raw)
                  (masked_file parser ss (o + 8 + length s.raw))))
          (look_up_here four s ss o fits header file e reads)
      ∙ ap (λ (fs : List (Found Block)). entry_of s ∷ fs)
          (scan_from-written fuel ss (o + 8 + length s.raw) file four behind stored headers
            (omega (arith, enough)))

-- For a file that Bitcoin Core has written, masked by a key or not, of blocks of 80 bytes at least,
-- scan_headers yields for each block, in order, its hash, the hash of the block before it, and a
-- place at which read_block_at reads that block.
pub scan_file-read_block_at :
    {Block : Type 0} (parser : Parser Block) (sha256 : Bytes → Bytes) (ss : List (Stored Block))
    → length parser.magic ≡ 4
    → All (IsStored parser) ss
    → All HasHeader ss
    → map
        (look_up parser sha256 (masked_file parser ss 0))
        (scan_file parser sha256 (masked_file parser ss 0))
      ≡ map (entry_of parser sha256) ss
unfolding scan_file
scan_file-read_block_at parser sha256 ss four h k =
    scan_from-written parser sha256 (length (masked_file parser ss 0)) ss 0
      (masked_file parser ss 0) four refl h k (blocks_le parser four ss 0)
