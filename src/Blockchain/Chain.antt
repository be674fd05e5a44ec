-- ===== src/Blockchain/Chain.antt =====
-- `verify_chain`, `_load_chain` and `_walk_chain_length` of class ChainVerifier
-- (blockchain/verifier.py). A dict is the list of its items, the newest first. The generator of the
-- blocks is the list of what it yields and how it ends. A height is not negative.
pub mod Verified
pub mod Walk
pub mod Scanned
pub mod Order
use bitcoin_script.Prelude.{
  ℕ, zero, suc, ◌+◌, ◌%◌, Bool, true, false, ◌&&◌, Option, none, some, List, [], ◌∷◌, ◌++◌, Bytes,
  bytes_eq, if◌then◌else◌, ◌==◌, leb, ltb,
}
use Prim.Native.Nat.{max}
use bitcoin_script.Prelude.Int.{ℤ, pos, negsuc}
use bitcoin_script.Errors.{Error, Result, ok, err}
use bitcoin_script.Blockchain.BlockFile.{
  Parser, Yields, finished, failed, yield_then, get_block_at_height,
}
use bitcoin_script.Blockchain.Transaction.{Block}
use bitcoin_script.Blockchain.Taproot.{zeros}
use bitcoin_script.Blockchain.Sighash.{Signatures}
use bitcoin_script.Blockchain.Utxo.{Table, checkpoint_height}
use bitcoin_script.Blockchain.Tasks.{Report, Judge}
use bitcoin_script.Blockchain.VerifyBlock.{BlockResult, verify_block_inner}

-- What `scan_headers` yields: the hashes of a block, and where it is.
pub record Header (Place : Type 0) : Type 0 where
  pub block_hash : Bytes
  pub prev_hash : Bytes
  pub place : Place

-- `d.get(key)`
unfoldable pub look_up : {V : Type 0} → Bytes → List (Bytes × V) → Option V
look_up key [] = none
look_up key ((k, v) ∷ items) = if bytes_eq k key then some v else look_up key items

-- `prev_to_hash` and `location`
pub record Index (Place : Type 0) : Type 0 where
  pub prev_to_hash : List (Bytes × Bytes)
  pub location : List (Bytes × Place)

abbrev pub genesis_prev : Bytes
genesis_prev = zeros 32

-- `if prev_hash not in prev_to_hash: prev_to_hash[prev_hash] = block_hash`
unfoldable pub put_first : {V : Type 0} → Bytes → V → List (Bytes × V) → List (Bytes × V)
put_first key value items = elim (look_up key items) [
  | none ↦ (key, value) ∷ items
  | some old ↦ items
]

abbrev pub or_no_hash : Option Bytes → Bytes
or_no_hash none = []
or_no_hash (some hash) = hash

module _ {Place : Type 0} where
  unfoldable pub note_header : Index Place → Header Place → Index Place
  note_header index header = record {
    prev_to_hash = put_first header.prev_hash header.block_hash index.prev_to_hash;
    location = (header.block_hash, header.place) ∷ index.location;
  }

  -- `prev_to_hash.get(current, b"")`
  unfoldable pub next_hash : Index Place → Bytes → Bytes
  next_hash index current = or_no_hash (look_up current index.prev_to_hash)

  -- The loop of `_walk_chain_length`.
  unfoldable pub walk_from : ℕ → Index Place → Bytes → ℕ
  walk_from zero index current = 0
  walk_from (suc fuel) index current = elim (look_up current index.location) [
    | none ↦ 0
    | some place ↦ suc (walk_from fuel index (next_hash index current))
  ]

  unfoldable pub walk_chain_length : ℕ → Index Place → ℕ
  walk_chain_length fuel index = elim (look_up genesis_prev index.prev_to_hash) [
    | none ↦ 0
    | some hash ↦ walk_from fuel index hash
  ]

  -- The first pass; every 50000 headers it stops, if the chain is long enough.
  unfoldable pub gather : ℕ → ℕ → ℕ → Index Place → List (Header Place) → Index Place
  gather fuel target_end scanned index [] = index
  gather fuel target_end scanned index (header ∷ headers) =
      let index' = note_header index header in
      let rest = gather fuel target_end (scanned + 1) index' headers in
      if (((scanned + 1) % 50000) == 0) && ltb target_end (walk_chain_length fuel index')
      then index'
      else rest

-- `end is not None and height >= end`
abbrev pub at_end : Option ℕ → ℕ → Bool
at_end none height = false
at_end (some last) height = leb last height

-- `end is not None and height > end`
abbrev pub behind_end : Option ℕ → ℕ → Bool
behind_end none height = false
behind_end (some last) height = ltb last height

abbrev pub target : ℕ → Option ℕ → ℕ
target start none = start + 10000
target start (some last) = last

-- Yield the block that is read, where the height is not below the start.
abbrev pub yield_block : {B : Type 0} → Bool → ℕ → Option B → Yields (ℕ × B) → Yields (ℕ × B)
yield_block false height block more = more
yield_block true height none more = failed Error.library_error
yield_block true height (some block) more = yield_then (height, block) more

module _ {Place B : Type 0} (read : Place → Option B) where
  -- The second pass.
  unfoldable pub walk : ℕ → Index Place → ℕ → Option ℕ → ℕ → Bytes → Yields (ℕ × B)
  walk zero index start last height current = finished
  walk (suc fuel) index start last height current =
      let rest = walk fuel index start last (height + 1) (next_hash index current) in
      elim (look_up current index.location) [
        | none ↦ finished
        | some place ↦
            yield_block (leb start height) height (read place)
              (if at_end last height then finished else rest)
      ]

  unfoldable pub load_chain : ℕ → List (Header Place) → ℕ → Option ℕ → Yields (ℕ × B)
  load_chain fuel headers start last =
      let index =
        gather fuel (target start last) 0 (record { prev_to_hash = []; location = [] }) headers in
      elim (look_up genesis_prev index.prev_to_hash) [
        | none ↦ finished
        | some hash ↦ walk fuel index start last 0 hash
      ]

-- The variables of the loop of `verify_chain`.
pub record Totals (Msg : Type 0) : Type 0 where
  pub inputs : ℕ
  pub blocks : ℕ
  pub errors : List (Report Msg)
  pub height : ℕ

-- ChainResult, without the time.
pub record ChainResult (Msg : Type 0) : Type 0 where
  pub start_height : ℕ
  pub end_height : ℕ
  pub blocks_verified : ℕ
  pub inputs_verified : ℕ
  pub errors : List (Report Msg)

-- `max(start, checkpoint + 1)`; a checkpoint below zero says that there is none.
abbrev pub effective_start : ℕ → ℤ → ℕ
effective_start start (pos checkpoint) = max start (checkpoint + 1)
effective_start start (negsuc n) = start

abbrev pub add_block : {Msg : Type 0} → Totals Msg → ℕ → BlockResult Msg → Totals Msg
add_block totals height r = record {
  inputs = totals.inputs + r.input_count;
  blocks = totals.blocks + 1;
  errors = totals.errors ++ r.errors;
  height = height;
}

abbrev pub chain_result : {Msg : Type 0} → ℕ → Totals Msg → ChainResult Msg
chain_result start totals = record {
  start_height = start;
  end_height = (if totals.blocks == 0 then start else totals.height);
  blocks_verified = totals.blocks;
  inputs_verified = totals.inputs;
  errors = totals.errors;
}

module _ {Db Msg : Type 0} (t : Table Db) (lib : Signatures) (judge : Judge Msg) where
  unfoldable pub verify_blocks :
      Option ℕ → Totals Msg → Db → List (ℕ × Block) → Option Error → Result (Totals Msg × Db)
  verify_blocks last totals db [] none = ok (totals, db)
  verify_blocks last totals db [] (some e) = err e
  verify_blocks last totals db ((height, block) ∷ blocks) failure = elim (behind_end last height) [
    | true ↦ ok (record totals { height = height }, db)
    | false ↦ elim (verify_block_inner t lib judge db block height) [
      | err e ↦ err e
      | ok (r, db') ↦ elim r.errors [
        | [] ↦ verify_blocks last (add_block totals height r) db' blocks failure
        | problem ∷ problems ↦ ok (add_block totals height r, db')
      ]
    ]
  ]

  -- `chain` is what `_load_chain` yields from the start on.
  unfoldable pub verify_chain :
      (ℕ → Option ℕ → Yields (ℕ × Block)) → Db → ℕ → Option ℕ → Result (ChainResult Msg × Db)
  verify_chain chain db start last =
      let first = effective_start start (checkpoint_height t db) in
      elim (verify_blocks last (record { inputs = 0; blocks = 0; errors = []; height = first }) db
        (chain first last).items (chain first last).failure) [
          | err e ↦ err e
          | ok (totals, db') ↦ ok (chain_result first totals, db')
        ]

  -- `verify_block`, on the contents of the blk files.
  unfoldable pub verify_block : Parser Block → List Bytes → Db → ℕ → Result (BlockResult Msg × Db)
  verify_block parser files db height = elim (get_block_at_height parser files height) [
    | err e ↦ err e
    | ok block ↦ verify_block_inner t lib judge db block height
  ]
