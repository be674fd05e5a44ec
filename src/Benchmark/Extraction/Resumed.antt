-- ===== src/Benchmark/Extraction/Resumed.antt =====
-- `extract_dataset` on a UTXO set on the disk, where a run stops between two checkpoints and the next
-- run takes up from what is on the disk.
use bitcoin_script.Prelude.{
  ℕ, ◌%◌, ◌≡◌, refl, sym, ap, ◌∙◌, true, List, [], ◌∷◌, ◌++◌, append-nil, ◌==◌, arith,
}
use bitcoin_script.Prelude.Int.{ℤ, pos, negsuc, leb_ℤ}
use bitcoin_script.Errors.{ok, ok-inj, both_ok}
use bitcoin_script.Blockchain.Transaction.{Block}
use bitcoin_script.Blockchain.Sighash.{Signatures}
use bitcoin_script.Blockchain.Utxo.{Table, IsTable, checkpoint_height, set_checkpoint_height}
use bitcoin_script.Benchmark.{BenchmarkInput}
use bitcoin_script.Benchmark.Extraction.{Targets, Work, started, extract_blocks, extract_dataset}
use bitcoin_script.Benchmark.Extraction.Frame.{
  Skipped, Walked, NoCheckpoint, Gain, applied, gain, extract_blocks-Skipped,
}
use bitcoin_script.Benchmark.Extraction.Steps.{
  either_nothing, fresh-Walked, Skipped-append, last-Skipped, walk_elsewhere, gain-NoCheckpoint,
  at_checkpoint, fresh_partial, walk_both, extract_dataset_by,
}

from_zero : (height : ℕ) → leb_ℤ (pos 0) (pos height) ≡ true
from_zero height = ground (arith)

module _ {Db : Type 0} (t : Table Db) (lib : Signatures) (targets : Targets) where
  -- The work with which a run starts from a checkpoint.
  resumed_at :
      (first : Work Db) (committed : Db) (partial : List BenchmarkInput) (height : ℕ)
      → committed ≡ first.committed
      → first.committed ≡ first.db
      → checkpoint_height t first.committed ≡ pos height
      → started t committed partial ≡ record first { partial = partial; all_inputs = partial }
  unfolding started
  resumed_at first committed partial height same kept numbered =
      rw (started, same, numbered, from_zero height, kept) refl

  -- The blocks up to the checkpoint are skipped, and the others are walked from there.
  resumed_walk :
      (first last : Work Db) (committed : Db) (partial : List BenchmarkInput) (height : ℕ)
      (done others : List (ℕ × Block))
      → committed ≡ first.committed
      → (first.committed ≡ first.db) × (checkpoint_height t first.committed ≡ pos height)
      → Skipped (pos height) done
      → extract_blocks t lib targets true
          (pos height)
          (record first { partial = partial; all_inputs = partial })
          others
        ≡ ok last
      → extract_blocks t lib targets true
          (checkpoint_height t committed)
          (started t committed partial)
          (done ++ others)
        ≡ ok last
  resumed_walk first last committed partial height done others same (kept, numbered) skipped h =
      rw (resumed_at first committed partial height same kept numbered, same, numbered)
        (extract_blocks-Skipped t lib targets (pos height)
            (record first { partial = partial; all_inputs = partial }) done others skipped
          ∙ h)

  -- What is walked twice is added to the disk and to the process alike.
  walk_twice :
      (height : ℕ) (first stopped last : Work Db) (partial : List BenchmarkInput)
      (more rest : List (ℕ × Block))
      → Walked (pos height) more
      → Walked (pos height) rest
      → extract_blocks t lib targets true (negsuc 0) first more ≡ ok stopped
      → extract_blocks t lib targets true (negsuc 0) stopped rest ≡ ok last
      → let resumed = record first { partial = partial; all_inputs = partial } in
        (g : Gain Db) × (g' : Gain Db) × (gain t lib targets first.db first.committed more ≡ ok g)
        × (applied g first ≡ stopped)
        × (applied g' (applied g first) ≡ last)
        × (extract_blocks t lib targets true (pos height) resumed (more ++ rest)
            ≡ ok (applied g' (applied g resumed)))
  walk_twice height first stopped last partial more rest p q h2 h3 =
      let resumed = record first { partial = partial; all_inputs = partial } in
      let (g, gained, same, again) =
        walk_elsewhere t lib targets (negsuc 0) (pos height) first stopped partial partial more
          (fresh-Walked more) p h2 in
      let (g', _, same', later) =
        walk_elsewhere t lib targets (negsuc 0) (pos height) (applied g first) last
          (partial ++ g.inputs) (partial ++ g.inputs) rest (fresh-Walked rest) q
          (ap (λ s. extract_blocks t lib targets true (negsuc 0) s rest) same ∙ h3) in
      (
        g,
        g',
        gained,
        same,
        same',
        walk_both t lib targets (pos height) resumed (applied g resumed)
            (applied g' (applied g resumed)) more rest again later,
      )

  -- A run on a fresh set on the disk walks `before` and a block at a height divisible by 1,000, where it
  -- is in the state `first`, then the blocks `more`, with no checkpoint among them, where it stops in
  -- the state `stopped`, while a run that does not stop goes on over `rest` to the state `last`. Then
  -- the run that does not stop returns the inputs of `last`, and the run that takes up from the disk of
  -- `stopped` returns the inputs of `more` twice: those of `first`, those of `more`, those of `more`
  -- again, and those of `rest`. Both leave the same UTXO set.
  pub extract_dataset-resumed :
      IsTable t
      → (db : Db) (max_height : ℤ) (before more rest : List (ℕ × Block)) (height : ℕ)
        (block : Block) (first stopped last : Work Db)
      → checkpoint_height t db ≡ negsuc 0
      → Skipped (pos height) before
      → (height % 1000 == 0) ≡ true
      → Walked (pos height) more
      → NoCheckpoint more
      → Walked (pos height) rest
      → (w : Work Db) → extract_blocks t lib targets true (negsuc 0) (started t db []) before ≡ ok w
      → extract_blocks t lib targets true (negsuc 0) w ((height, block) ∷ []) ≡ ok first
      → extract_blocks t lib targets true (negsuc 0) first more ≡ ok stopped
      → extract_blocks t lib targets true (negsuc 0) stopped rest ≡ ok last
      → let blocks = (before ++ (height, block) ∷ []) ++ (more ++ rest) in
        (again : List BenchmarkInput) × (later : List BenchmarkInput) × (stopped.all_inputs
          ≡ first.all_inputs ++ again)
        × (last.all_inputs ≡ stopped.all_inputs ++ later)
        × (extract_dataset t lib targets true max_height db [] blocks
            ≡ ok (last.all_inputs, set_checkpoint_height t last.db max_height))
        × (extract_dataset t lib targets true max_height stopped.committed stopped.partial blocks
            ≡ ok (
              (stopped.all_inputs ++ again) ++ later,
              set_checkpoint_height t last.db max_height,
            ))
  extract_dataset-resumed laws db max_height before more rest height block first stopped last fresh
        skipped thousand p none_between q w h0 h1 h2 h3 =
      let done = before ++ (height, block) ∷ [] in
      let walked : extract_blocks t lib targets true (negsuc 0) (started t db []) done ≡ ok first =
        walk_both t lib targets (negsuc 0) (started t db []) w first before ((height, block) ∷ [])
          h0 h1 in
      let same_inputs : stopped.partial ≡ stopped.all_inputs =
        fresh_partial t lib targets db stopped (done ++ more) (
          walk_both t lib targets (negsuc 0) (started t db []) first stopped done more walked h2) in
      let committed = at_checkpoint t lib targets laws w first height block thousand h1 in
      let skips : Skipped (pos height) done =
        Skipped-append (pos height) before ((height, block) ∷ []) skipped
          (last-Skipped height, tt) in
      let resumed = record first { partial = stopped.partial; all_inputs = stopped.partial } in
      let (g, g', gained, same, same', again) =
        walk_twice height first stopped last stopped.partial more rest p q h2 h3 in
      let on_disk : stopped.committed ≡ first.committed =
        sym (ap (λ (w : Work Db). w.committed) same)
        ∙ gain-NoCheckpoint t lib targets first.db first.committed more g none_between gained in
      let last_again = applied g' (applied g resumed) in
      (
        g.inputs,
        g'.inputs,
        sym (ap (λ (w : Work Db). w.all_inputs) same),
        sym (ap (λ (w : Work Db). w.all_inputs) same')
            ∙ ap (λ (w : Work Db). w.all_inputs ++ g'.inputs) same,
        extract_dataset_by t lib targets max_height db [] (done ++ (more ++ rest)) last (
            ap (λ c. extract_blocks t lib targets true c (started t db []) (done ++ (more ++ rest)))
              fresh
            ∙ walk_both t lib targets (negsuc 0) (started t db []) first last done (more ++ rest)
                walked (walk_both t lib targets (negsuc 0) first stopped last more rest h2 h3)),
        extract_dataset_by t lib targets max_height stopped.committed stopped.partial
              (done ++ (more ++ rest)) last_again
              (resumed_walk first last_again stopped.committed stopped.partial height done
                (more ++ rest) on_disk committed skips again)
            ∙ ap ok (λ i. (
              (same_inputs i ++ g.inputs) ++ g'.inputs,
              set_checkpoint_height t (same' i).db max_height,
            )),
      )

  -- After a run up to `max_height` on a set on the disk, every further run that finds no partial file
  -- and is given no block above `max_height`, whatever its targets, returns no input.
  pub extract_dataset-rerun :
      IsTable t
      → (max_height : ℤ) (db db' : Db) (partial inputs : List BenchmarkInput)
        (blocks : List (ℕ × Block))
      → extract_dataset t lib targets true max_height db partial blocks ≡ ok (inputs, db')
      → (targets' : Targets) (max_height' : ℤ) (blocks' : List (ℕ × Block))
      → Skipped max_height blocks'
      → extract_dataset t lib targets' true max_height' db' [] blocks'
        ≡ ok ([], set_checkpoint_height t db' max_height')
  unfolding extract_dataset checkpoint_height set_checkpoint_height started extract_blocks
  extract_dataset-rerun laws max_height db db' partial inputs blocks h targets' max_height' blocks'
        skipped =
      let (w, _, ended) =
        both_ok
          (extract_blocks t lib targets true (checkpoint_height t db) (started t db partial) blocks)
          (λ w. ok (w.all_inputs, set_checkpoint_height t w.db max_height)) (inputs, db') h in
      let numbered : checkpoint_height t db' ≡ max_height =
        ap (checkpoint_height t) (sym (ap (λ (p : List BenchmarkInput × Db). p.1) (ok-inj ended)))
        ∙ laws.select_height-update_height w.db max_height in
      let start = started t db' [] in
      extract_dataset_by t lib targets' max_height' db' [] blocks' start (
        ap (λ c. extract_blocks t lib targets' true c start blocks') numbered
        ∙ ap (extract_blocks t lib targets' true max_height start) (sym (append-nil blocks'))
        ∙ extract_blocks-Skipped t lib targets' max_height start blocks' [] skipped)
      ∙ ap (λ inputs. ok (inputs, set_checkpoint_height t db' max_height'))
          (sym (either_nothing (leb_ℤ (pos 0) (checkpoint_height t db'))))
