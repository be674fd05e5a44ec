-- ===== src/Benchmark/Extraction.antt =====
-- `extract_dataset` of benchmark/extractor.py: the walk over the chain with its checkpoints, and what
-- is on the disk at any moment. The blocks of `_walk_chain` are given as a list. The partial file holds
-- the inputs that were appended to it, and is empty where it is missing.
pub mod Frame
pub mod Steps
pub mod Resumed
pub mod Examples
use bitcoin_script.Prelude.{
  ℕ, ◌%◌, Bool, true, false, ◌&&◌, Option, none, some, List, [], ◌∷◌, ◌++◌, if◌then◌else◌, ◌==◌,
}
use bitcoin_script.Prelude.Int.{ℤ, pos, leb_ℤ}
use bitcoin_script.Prelude.Text.{Text, codes}
use bitcoin_script.Errors.{Error, Result, ok, err}
use bitcoin_script.Blockchain.Transaction.{Block}
use bitcoin_script.Blockchain.Sighash.{Signatures}
use bitcoin_script.Blockchain.Utxo.{Table, checkpoint_height, set_checkpoint_height}
use bitcoin_script.Benchmark.{BenchmarkInput}
use bitcoin_script.Benchmark.Extractor.{extract_inputs_from_block, update_utxo_only}

-- `height in heights`
unfoldable pub is_in : ℕ → List ℕ → Bool
is_in height [] = false
is_in height (h ∷ heights) = let later = is_in height heights in if h == height then true else later

pub record Targets : Type 0 where
  pub continuous_end : ℤ
  pub representative_heights : List ℕ
  pub stress_heights : List ℕ

unfoldable pub category_of : Targets → ℕ → Option Text
category_of targets height =
    if leb_ℤ (pos height) targets.continuous_end
    then some (codes "continuous")
    else (if is_in height targets.representative_heights
        then some (codes "representative")
        else (if is_in height targets.stress_heights then some (codes "stress") else none))

-- The UTXO set of the process and of the disk, the partial file, and the inputs of the process.
pub record Work (Db : Type 0) : Type 0 where
  pub db : Db
  pub committed : Db
  pub partial : List BenchmarkInput
  pub all_inputs : List BenchmarkInput

abbrev pub without_inputs : {Db : Type 0} → Result Db → Result (List BenchmarkInput × Db)
without_inputs (err e) = err e
without_inputs (ok db) = ok ([], db)

-- `all_inputs.extend` and `append_inputs`
abbrev pub with_extracted : {Db : Type 0} → Bool → List BenchmarkInput → Db → Work Db → Work Db
with_extracted on_disk inputs db w = record w {
  db = db;
  partial = if on_disk then w.partial ++ inputs else w.partial;
  all_inputs = w.all_inputs ++ inputs;
}

module _ {Db : Type 0} (t : Table Db) where
  abbrev pub committed_at : ℤ → Work Db → Work Db
  committed_at height w = record w {
    db = set_checkpoint_height t w.db height;
    committed = set_checkpoint_height t w.db height;
  }

  unfoldable pub checkpoint : Bool → ℕ → Work Db → Work Db
  checkpoint on_disk height w =
      if on_disk && (height % 1000 == 0) then committed_at (pos height) w else w

  -- `all_inputs` at the start, with what a run before has left on the disk.
  unfoldable pub started : Db → List BenchmarkInput → Work Db
  started committed partial = record {
    db = committed;
    committed = committed;
    partial = partial;
    all_inputs = if leb_ℤ (pos 0) (checkpoint_height t committed) then partial else [];
  }

module _ {Db : Type 0} (t : Table Db) (lib : Signatures) (targets : Targets) (on_disk : Bool) where
  unfoldable pub extracted : Db → ℕ → Block → Result (List BenchmarkInput × Db)
  extracted db height block = elim (category_of targets height) [
    | some category ↦ extract_inputs_from_block t lib db block height category
    | none ↦ without_inputs (update_utxo_only t db block height)
  ]

  -- One round of the loop, for a block that is not skipped.
  unfoldable pub extract_round : Work Db → ℕ → Block → Result (Work Db)
  extract_round w height block = elim (extracted w.db height block) [
    | err e ↦ err e
    | ok (inputs, db) ↦ ok (checkpoint t on_disk height (with_extracted on_disk inputs db w))
  ]

  unfoldable pub extract_blocks : ℤ → Work Db → List (ℕ × Block) → Result (Work Db)
  extract_blocks resume_height w [] = ok w
  extract_blocks resume_height w ((height, block) ∷ blocks) =
      if leb_ℤ (pos height) resume_height
      then extract_blocks resume_height w blocks
      else elim (extract_round w height block) [
        | err e ↦ err e
        | ok w' ↦ extract_blocks resume_height w' blocks
      ]

  -- The inputs of the dataset, and what is left on the disk: the partial file is removed.
  unfoldable pub extract_dataset :
      ℤ → Db → List BenchmarkInput → List (ℕ × Block) → Result (List BenchmarkInput × Db)
  extract_dataset max_height committed partial blocks =
      elim (extract_blocks (checkpoint_height t committed) (started t committed partial) blocks) [
        | err e ↦ err e
        | ok w ↦
            ok (
              w.all_inputs,
              if on_disk then set_checkpoint_height t w.db max_height else w.committed,
            )
      ]
