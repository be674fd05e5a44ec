-- ===== src/Blockchain/BlockFile.antt =====
-- blockchain/parser.py: the blk files of Bitcoin Core. An open file is the position of its handle and
-- the bytes behind it. A generator is the list of what it yields and how it ends. Reading a block's
-- bytes as a block is the library's, a parameter here.
pub mod Layout
pub mod Written
pub mod Scan
use bitcoin_script.Prelude.{
  ℕ, zero, suc, ◌+◌, ◌%◌, Bool, true, false, Option, none, some, List, [], ◌∷◌, ◌++◌, Bytes, length,
  take, drop, byte_at, from_le, bytes_eq, bit_xor, if◌then◌else◌, ◌==◌, ltb,
}
use bitcoin_script.Errors.{Error, Result, ok, err}

-- The content of xor.dat, which has a byte at least, or its absence.
pub data XorKey : Type 0 where
  no_key : XorKey
  xor_key : ℕ → Bytes → XorKey

-- The byte `key[i % key_len]`.
abbrev pub key_byte : ℕ → Bytes → ℕ → ℕ
key_byte k ks i = byte_at (k ∷ ks) (i % length (k ∷ ks))

-- `_xor_bytes`
unfoldable pub xor_bytes : Bytes → ℕ → Bytes → ℕ → Bytes
xor_bytes [] k ks offset = []
xor_bytes (b ∷ rest) k ks offset =
    bit_xor b (key_byte k ks offset) ∷ xor_bytes rest k ks (offset + 1)

-- `if self._xor_key is not None: data = _xor_bytes(data, self._xor_key, offset)`
unfoldable pub unmask : XorKey → Bytes → ℕ → Bytes
unmask no_key raw offset = raw
unmask (xor_key k ks) raw offset = xor_bytes raw k ks offset

-- What a generator yields, and the exception that ends it, if one does.
pub record Yields (A : Type 0) : Type 0 where
  pub items : List A
  pub failure : Option Error

abbrev pub finished : {A : Type 0} → Yields A
finished = record { items = []; failure = none }

abbrev pub failed : {A : Type 0} → Error → Yields A
failed e = record { items = []; failure = some e }

abbrev pub yield_then : {A : Type 0} → A → Yields A → Yields A
yield_then a y = record y { items = a ∷ y.items }

-- `yield from` the first generator, and then the second, unless the first has raised.
unfoldable pub yield_from : {A : Type 0} → Yields A → Yields A → Yields A
yield_from y z = elim y.failure [
  | none ↦ record { items = y.items ++ z.items; failure = z.failure }
  | some e ↦ y
]

abbrev pub header_size : ℕ
header_size = 8

-- The parser's network magic and key, and CBlock.deserialize.
pub record Parser (Block : Type 0) : Type 0 where
  pub magic : Bytes
  pub key : XorKey
  pub deserialize : Bytes → Option Block

-- The loop of `get_block_at_height`: IndexError where the chain is too short, and whatever the
-- iteration raises before.
unfoldable pub block_at {ℓ} : {Block : Type ℓ} → ℕ → List Block → Option Error → Result Block
block_at height [] none = err Error.index_error
block_at height [] (some e) = err e
block_at zero (block ∷ blocks) failure = ok block
block_at (suc height) (block ∷ blocks) failure = block_at height blocks failure

module _ {Block : Type 0} (parser : Parser Block) where
  -- `f.read(HEADER_SIZE)` and `struct.unpack("<4sI", header)`, where all eight bytes are there.
  unfoldable pub read_header : ℕ → Bytes → Option (Bytes × ℕ)
  read_header offset file =
      let header = unmask parser.key (take header_size file) offset in
      if ltb (length (take header_size file)) header_size
      then none
      else some (take 4 header, from_le (drop 4 header))

  -- CBlock.deserialize on bytes that have been read at an offset.
  unfoldable pub read_raw : ℕ → Bytes → Option Block
  read_raw offset raw = parser.deserialize (unmask parser.key raw offset)

  -- `_iter_blocks_in_file`
  unfoldable pub iter_from : ℕ → ℕ → Bytes → Yields Block
  iter_from zero offset file = finished
  iter_from (suc fuel) offset file = elim (read_header offset file) [
    | none ↦ finished
    | some (magic, size) ↦ elim (bytes_eq magic parser.magic) [
      | false ↦ failed Error.value_error
      | true ↦ elim (ltb (length (take size (drop header_size file))) size) [
        | true ↦ failed Error.value_error
        | false ↦ elim (read_raw (offset + header_size) (take size (drop header_size file))) [
          | none ↦ failed Error.library_error
          | some block ↦
              yield_then block
                (iter_from fuel (offset + header_size + size) (drop size (drop header_size file)))
        ]
      ]
    ]
  ]

  -- `_skip_block`: the handle behind the block, or nothing at the end of the file.
  unfoldable pub skip_block : ℕ → Bytes → Option (ℕ × Bytes)
  skip_block offset file = elim (read_header offset file) [
    | none ↦ none
    | some (magic, size) ↦ some (offset + header_size + size, drop size (drop header_size file))
  ]

  -- The inner `while` of `iter_blocks`: how many blocks are still to be skipped, and the handle.
  unfoldable pub skip_blocks : ℕ → ℕ → Bytes → ℕ × ℕ × Bytes
  skip_blocks zero offset file = (zero, offset, file)
  skip_blocks (suc n) offset file = elim (skip_block offset file) [
    | none ↦ (suc n, offset, file)
    | some (offset', file') ↦ skip_blocks n offset' file'
  ]

  -- The body of the `for` loop: `continue` where blocks are still to be skipped behind this file.
  unfoldable pub iter_file : ℕ × ℕ × Bytes → (ℕ → Yields Block) → Yields Block
  iter_file (zero, offset, file) more = yield_from (iter_from (length file) offset file) (more zero)
  iter_file (suc n, offset, file) more = more (suc n)

  -- `iter_blocks`, with the number of blocks that are still to be skipped.
  unfoldable pub iter_blocks : ℕ → List Bytes → Yields Block
  iter_blocks start [] = finished
  iter_blocks start (file ∷ files) = iter_file (skip_blocks start 0 file) (λ n. iter_blocks n files)

  unfoldable pub get_block_at_height : List Bytes → ℕ → Result Block
  get_block_at_height files height =
      block_at height (iter_blocks 0 files).items (iter_blocks 0 files).failure

  -- `read_block_at`
  unfoldable pub read_block_at : Bytes → ℕ → ℕ → Option Block
  read_block_at file offset size = read_raw offset (take size (drop offset file))

-- `_blk_files`: the files blk00000.dat and so on, up to the first that is missing.
unfoldable pub blk_files_from : ℕ → ℕ → (ℕ → Option Bytes) → List Bytes
blk_files_from zero i directory = []
blk_files_from (suc n) i directory = elim (directory i) [
  | none ↦ []
  | some file ↦ file ∷ blk_files_from n (i + 1) directory
]

unfoldable pub blk_files : (ℕ → Option Bytes) → List Bytes
blk_files directory = blk_files_from 100_000 0 directory

-- What `scan_headers` yields of a block; the path is left to the caller.
pub record Location : Type 0 where
  pub block_hash : Bytes
  pub prev_hash : Bytes
  pub raw_offset : ℕ
  pub size : ℕ

abbrev pub block_header_size : ℕ
block_header_size = 80

module _ {Block : Type 0} (parser : Parser Block) (sha256 : Bytes → Bytes) where
  unfoldable pub location : ℕ → ℕ → Bytes → Location
  location raw_offset size raw =
      let header = unmask parser.key (take block_header_size raw) raw_offset in
      record {
        block_hash = sha256 (sha256 header);
        prev_hash = take 32 (drop 4 header);
        raw_offset = raw_offset;
        size = size;
      }

  -- The loop of `scan_headers` over one file.
  unfoldable pub scan_from : ℕ → ℕ → Bytes → List Location
  scan_from zero offset file = []
  scan_from (suc fuel) offset file = elim (read_header parser offset file) [
    | none ↦ []
    | some (magic, size) ↦ elim (bytes_eq magic parser.magic) [
      | false ↦ []
      | true ↦
          elim (ltb (length (take block_header_size (drop header_size file))) block_header_size) [
            | true ↦ []
            | false ↦
                location (offset + header_size) size (drop header_size file)
                ∷ scan_from fuel (offset + header_size + size) (drop size (drop header_size file))
          ]
    ]
  ]

  unfoldable pub scan_file : Bytes → List Location
  scan_file file = scan_from (length file) 0 file
