-- ===== src/Blockchain/BlockFile/Written.antt =====
-- What the parser reads of the files that Bitcoin Core writes, with or without a mask.
use bitcoin_script.Prelude.{
  ℕ, zero, suc, ◌+◌, ◌-◌, ◌≡◌, ◌<◌, ◌≤◌, refl, sym, ap, ◌∙◌, false, none, some, List, [], ◌∷◌, ◌++◌,
  map, Bytes, All, length, take, drop, bytes_eq_self, length-append, take-append, drop-append, ltb,
  arith,
}
use Prim.Native.Nat.{◌^◌}
use bitcoin_script.Prelude.Little.{to_le}
use bitcoin_script.Errors.{Error, Result, ok, err}
use bitcoin_script.Blockchain.BlockFile.{
  unmask, Yields, finished, yield_then, yield_from, header_size, Parser, read_header, read_raw,
  iter_from, skip_block, skip_blocks, iter_file, iter_blocks, block_at, get_block_at_height,
}
use bitcoin_script.Blockchain.BlockFile.Layout.{
  unmask_twice, take-unmask, drop-unmask, length-unmask, unmask-nil, read_header-nil, header_of,
  read_header_written, behind_header,
}

-- A block and the bytes that are written for it.
pub record Stored (Block : Type 0) : Type 0 where
  pub raw : Bytes
  pub block : Block

abbrev pub stored_block : {Block : Type 0} → Stored Block → Block
stored_block s = s.block

-- The size fits into four bytes, and the library reads the bytes as the block.
abbrev pub IsStored : {Block : Type 0} → Parser Block → Stored Block → Type 0
IsStored parser s = (length s.raw < 256 ^ 4) × (parser.deserialize s.raw ≡ some s.block)

abbrev pub plain_file : {Block : Type 0} → Bytes → List (Stored Block) → Bytes
plain_file magic [] = []
plain_file magic (s ∷ ss) = header_of magic (length s.raw) ++ (s.raw ++ plain_file magic ss)

-- The bytes of the file behind an offset.
abbrev pub masked_file : {Block : Type 0} → Parser Block → List (Stored Block) → ℕ → Bytes
masked_file parser ss offset = unmask parser.key (plain_file parser.magic ss) offset

abbrev pub whole : {A : Type 0} → List A → Yields A
whole xs = record { items = xs; failure = none }

none_left : (n : ℕ) → zero ≡ zero - n
none_left n = omega arith

all_left : (n : ℕ) → suc n ≡ suc n - 0
all_left n = omega arith

one_less : (n m : ℕ) → n - m ≡ suc n - suc m
one_less n m = omega arith

module _ {Block : Type 0} (parser : Parser Block) (four : length parser.magic ≡ 4) where
  module _ (s : Stored Block) (ss : List (Stored Block)) (o : ℕ)
      (fits : length s.raw < 256 ^ 4) where
    abbrev here : Bytes
    here = masked_file parser (s ∷ ss) o

    pub header_here : read_header parser o here ≡ some (parser.magic, length s.raw)
    header_here =
        read_header_written parser four o (length s.raw) (s.raw ++ plain_file parser.magic ss) fits

    pub body_here :
        drop header_size here ≡ unmask parser.key (s.raw ++ plain_file parser.magic ss) (o + 8)
    body_here = behind_header parser four o (length s.raw) (s.raw ++ plain_file parser.magic ss)

    pub raw_here : take (length s.raw) (drop header_size here) ≡ unmask parser.key s.raw (o + 8)
    raw_here =
        ap (λ (t : Bytes). take (length s.raw) t) body_here
        ∙ take-unmask parser.key (length s.raw) (s.raw ++ plain_file parser.magic ss) (o + 8)
        ∙ ap (λ (t : Bytes). unmask parser.key t (o + 8))
            (take-append s.raw (plain_file parser.magic ss))

    pub next_here :
        drop (length s.raw) (drop header_size here) ≡ masked_file parser ss (o + 8 + length s.raw)
    next_here =
        ap (λ (t : Bytes). drop (length s.raw) t) body_here
        ∙ drop-unmask parser.key (length s.raw) (s.raw ++ plain_file parser.magic ss) (o + 8)
            (o + 8 + length s.raw) refl
        ∙ ap (λ (t : Bytes). unmask parser.key t (o + 8 + length s.raw))
            (drop-append s.raw (plain_file parser.magic ss))

    pub complete_here :
        ltb (length (take (length s.raw) (drop header_size here))) (length s.raw) ≡ false
    complete_here = rw (raw_here) ground (arith, length-unmask parser.key s.raw (o + 8))

    pub read_here :
        parser.deserialize s.raw ≡ some s.block
        → read_raw parser (o + 8) (take (length s.raw) (drop header_size here)) ≡ some s.block
    unfolding read_raw
    read_here h = rw (raw_here, read_raw, unmask_twice parser.key s.raw (o + 8)) h

    iter_step :
        (fuel : ℕ)
        → parser.deserialize s.raw ≡ some s.block
        → iter_from parser (suc fuel) o here
          ≡ yield_then s.block (
              iter_from parser fuel
                (o + 8 + length s.raw)
                (masked_file parser ss (o + 8 + length s.raw)))
    unfolding iter_from
    iter_step fuel h =
        rw
          (
            iter_from,
            header_here,
            bytes_eq_self parser.magic,
            complete_here,
            read_here h,
            next_here,
          )
          refl

    skip_step :
        skip_block parser o here
        ≡ some (o + 8 + length s.raw, masked_file parser ss (o + 8 + length s.raw))
    unfolding skip_block
    skip_step = rw (skip_block, header_here, next_here) refl

  pub header_at_end : (o : ℕ) → read_header parser o (masked_file parser [] o) ≡ none
  header_at_end o = ap (read_header parser o) (unmask-nil parser.key o) ∙ read_header-nil parser o

  nothing_left : (fuel o : ℕ) → iter_from parser fuel o (masked_file parser [] o) ≡ finished
  unfolding iter_from
  nothing_left zero o = refl
  nothing_left (suc fuel) o = rw (iter_from, header_at_end o) refl

  -- A block takes eight bytes at least, so the file is enough fuel.
  pub blocks_le : (ss : List (Stored Block)) (o : ℕ) → length ss ≤ length (masked_file parser ss o)
  blocks_le ss o =
      omega (arith, length-unmask parser.key (plain_file parser.magic ss) o, plain_le ss)
    where
      plain_le : (ss : List (Stored Block)) → length ss ≤ length (plain_file parser.magic ss)
      plain_le [] = omega arith
      plain_le (s ∷ ss) = omega (
        arith,
        four,
        plain_le ss,
        length-append (header_of parser.magic (length s.raw)) (s.raw ++ plain_file parser.magic ss),
        length-append parser.magic (to_le 4 (length s.raw)),
        length-append s.raw (plain_file parser.magic ss),
      )

  iter_from-written :
      (fuel : ℕ) (ss : List (Stored Block)) (o : ℕ)
      → All (IsStored parser) ss
      → length ss ≤ fuel
      → iter_from parser fuel o (masked_file parser ss o) ≡ whole (map stored_block ss)
  iter_from-written zero [] o h k = unfold iter_from in refl
  iter_from-written zero (s ∷ ss) o h k = absurd (omega (arith, k))
  iter_from-written (suc fuel) [] o h k = nothing_left (suc fuel) o
  iter_from-written (suc fuel) (s ∷ ss) o ((fits, reads), more) k =
      iter_step s ss o fits fuel reads
      ∙ ap (yield_then s.block)
          (iter_from-written fuel ss (o + 8 + length s.raw) more (omega (arith, k)))

  skip_at_end : (o : ℕ) → skip_block parser o (masked_file parser [] o) ≡ none
  unfolding skip_block
  skip_at_end o = rw (skip_block, header_at_end o) refl

  skip_over :
      (n : ℕ) (s : Stored Block) (ss : List (Stored Block)) (o : ℕ)
      → length s.raw < 256 ^ 4
      → skip_blocks parser (suc n) o (masked_file parser (s ∷ ss) o)
        ≡ skip_blocks parser n (o + 8 + length s.raw) (masked_file parser ss (o + 8 + length s.raw))
  unfolding skip_blocks
  skip_over n s ss o fits = rw (skip_blocks, skip_step s ss o fits) refl

  skip_blocks-written :
      (n : ℕ) (ss : List (Stored Block)) (o : ℕ) (more : ℕ → Yields Block)
      → All (IsStored parser) ss
      → iter_file parser (skip_blocks parser n o (masked_file parser ss o)) more
        ≡ yield_from (whole (drop n (map stored_block ss))) (more (n - length ss))
  unfolding iter_file skip_blocks yield_from
  skip_blocks-written zero ss o more h =
      ap (λ (y : Yields Block). yield_from y (more zero))
        (iter_from-written (length (masked_file parser ss o)) ss o h (blocks_le ss o))
      ∙ ap (λ (n : ℕ). yield_from (whole (map stored_block ss)) (more n)) (none_left (length ss))
  skip_blocks-written (suc n) [] o more h = rw (skip_blocks, skip_at_end o) (ap more (all_left n))
  skip_blocks-written (suc n) (s ∷ ss) o more ((fits, reads), rest) =
      ap (λ (x : ℕ × ℕ × Bytes). iter_file parser x more) (skip_over n s ss o fits)
      ∙ skip_blocks-written n ss (o + 8 + length s.raw) more rest
      ∙ ap (λ (m : ℕ). yield_from (whole (drop n (map stored_block ss))) (more m))
          (one_less n (length ss))

-- The blocks of all files, in order.
abbrev pub all_blocks : {Block : Type 0} → List (List (Stored Block)) → List Block
all_blocks [] = []
all_blocks (ss ∷ files) = map stored_block ss ++ all_blocks files

-- The files as they are on disk.
abbrev pub files_of : {Block : Type 0} → Parser Block → List (List (Stored Block)) → List Bytes
files_of parser [] = []
files_of parser (ss ∷ files) = masked_file parser ss 0 ∷ files_of parser files

drop-nil : {A : Type 0} (n : ℕ) → drop {A = A} n [] ≡ []
drop-nil zero = refl
drop-nil (suc n) = refl

drop-blocks :
    {Block : Type 0} (n : ℕ) (ss : List (Stored Block)) (ys : List Block)
    → drop n (map stored_block ss) ++ drop (n - length ss) ys ≡ drop n (map stored_block ss ++ ys)
drop-blocks zero ss ys =
    ap (λ (m : ℕ). map stored_block ss ++ drop m ys) (sym (none_left (length ss)))
drop-blocks (suc n) [] ys = ap (λ (m : ℕ). drop m ys) (sym (all_left n))
drop-blocks (suc n) (s ∷ ss) ys =
    ap (λ (m : ℕ). drop n (map stored_block ss) ++ drop m ys) (sym (one_less n (length ss)))
    ∙ drop-blocks n ss ys

-- For files of any number of blocks that Bitcoin Core has written, masked by a key or not,
-- iter_blocks(start) yields all blocks but the first `start`, in order, and raises nothing.
pub iter_blocks-files_of :
    {Block : Type 0} (parser : Parser Block) (start : ℕ) (files : List (List (Stored Block)))
    → length parser.magic ≡ 4
    → All (All (IsStored parser)) files
    → iter_blocks parser start (files_of parser files) ≡ whole (drop start (all_blocks files))
unfolding iter_blocks yield_from
iter_blocks-files_of parser start [] four h = ap whole (sym (drop-nil start))
iter_blocks-files_of parser start (ss ∷ files) four (h, more) =
    skip_blocks-written parser four start ss 0 (λ n. iter_blocks parser n (files_of parser files)) h
    ∙ ap (yield_from (whole (drop start (map stored_block ss))))
        (iter_blocks-files_of parser (start - length ss) files four more)
    ∙ ap whole (drop-blocks start ss (all_blocks files))

-- The block at a height, or IndexError where the chain is too short.
abbrev pub nth_block : {Block : Type 0} → List Block → ℕ → Result Block
nth_block [] height = err Error.index_error
nth_block (b ∷ bs) zero = ok b
nth_block (b ∷ bs) (suc height) = nth_block bs height

block_at-nth :
    {Block : Type 0} (height : ℕ) (bs : List Block) → block_at height bs none ≡ nth_block bs height
unfolding block_at
block_at-nth height [] = refl
block_at-nth zero (b ∷ bs) = refl
block_at-nth (suc height) (b ∷ bs) = block_at-nth height bs

pub get_block_at_height-files_of :
    {Block : Type 0} (parser : Parser Block) (height : ℕ) (files : List (List (Stored Block)))
    → length parser.magic ≡ 4
    → All (All (IsStored parser)) files
    → get_block_at_height parser (files_of parser files) height
      ≡ nth_block (all_blocks files) height
unfolding get_block_at_height
get_block_at_height-files_of parser height files four h =
    rw (iter_blocks-files_of parser 0 files four h) (block_at-nth height (all_blocks files))
