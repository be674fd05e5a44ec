-- ===== src/Benchmark/Extraction/Steps.antt =====
-- What a walk of `extract_dataset` leaves behind: at a checkpoint, between two checkpoints, and after
-- blocks that are skipped.
use mathlib.Core.Path.{subst}
use bitcoin_script.Prelude.{
  ℕ, ◌%◌, ◌≡◌, refl, sym, ap, ◌∙◌, Bool, true, false, List, [], ◌∷◌, ◌++◌, if◌then◌else◌, ◌==◌,
  arith,
}
use bitcoin_script.Prelude.Int.{ℤ, pos, negsuc, leb_ℤ}
use bitcoin_script.Errors.{Result, ok, err, err≢ok, ok-inj}
use bitcoin_script.Blockchain.Transaction.{Block}
use bitcoin_script.Blockchain.Sighash.{Signatures}
use bitcoin_script.Blockchain.Utxo.{Table, IsTable, checkpoint_height, set_checkpoint_height}
use bitcoin_script.Benchmark.{BenchmarkInput}
use bitcoin_script.Benchmark.Extraction.{
  Targets, Work, started, extracted, extract_blocks, extract_dataset,
}
use bitcoin_script.Benchmark.Extraction.Frame.{
  Skipped, Walked, NoCheckpoint, Gain, applied, behind, on_ok, then_do, stored, gain,
  extract_blocks-gain, extract_blocks-append,
}

on_ok_inv :
    {A B : Type 0} (f : A → B) (r : Result A) (b : B)
    → on_ok f r ≡ ok b
    → (a : A) × (r ≡ ok a) × (f a ≡ b)
on_ok_inv f (err e) b h = absurd (err≢ok h)
on_ok_inv f (ok a) b h = (a, refl, ok-inj h)

then_do_inv :
    {A B : Type 0} (r : Result A) (f : A → Result B) (b : B)
    → then_do r f ≡ ok b
    → (a : A) × (r ≡ ok a) × (f a ≡ ok b)
then_do_inv (err e) f b h = absurd (err≢ok h)
then_do_inv (ok a) f b h = (a, refl, h)

-- Without a checkpoint nothing is skipped.
pub fresh-Walked : (blocks : List (ℕ × Block)) → Walked (negsuc 0) blocks
fresh-Walked [] = tt
fresh-Walked ((height, block) ∷ blocks) = (ground (arith), fresh-Walked blocks)

pub either_nothing : (b : Bool) → ◌≡◌ {A = List BenchmarkInput} [] (if b then [] else [])
either_nothing true = refl
either_nothing false = refl

pub Skipped-append :
    (resume : ℤ) (xs ys : List (ℕ × Block))
    → Skipped resume xs
    → Skipped resume ys
    → Skipped resume (xs ++ ys)
Skipped-append resume [] ys p q = q
Skipped-append resume (x ∷ xs) ys (first, p) q = (first, Skipped-append resume xs ys p q)

pub last-Skipped : (height : ℕ) → leb_ℤ (pos height) (pos height) ≡ true
last-Skipped height = ground (arith)

module _ {Db : Type 0} (t : Table Db) (lib : Signatures) (targets : Targets) where
  -- What a walk adds, it adds to every work with the same sets.
  pub walk_elsewhere :
      (resume resume' : ℤ) (w w' : Work Db) (partial all_inputs : List BenchmarkInput)
      (blocks : List (ℕ × Block))
      → Walked resume blocks
      → Walked resume' blocks
      → extract_blocks t lib targets true resume w blocks ≡ ok w'
      → (g : Gain Db) × (gain t lib targets w.db w.committed blocks ≡ ok g)
        × (applied g w ≡ w')
        × (extract_blocks t lib targets true resume'
              (record w { partial = partial; all_inputs = all_inputs })
              blocks
            ≡ ok (applied g (record w { partial = partial; all_inputs = all_inputs })))
  walk_elsewhere resume resume' w w' partial all_inputs blocks p q h =
      let (g, gained, same) =
        on_ok_inv (λ g. applied g w) (gain t lib targets w.db w.committed blocks) w'
          (sym (extract_blocks-gain t lib targets resume w blocks p) ∙ h) in
      (
        g,
        gained,
        same,
        extract_blocks-gain t lib targets resume'
              (record w { partial = partial; all_inputs = all_inputs }) blocks q
            ∙ ap (on_ok (λ g. applied g (record w { partial = partial; all_inputs = all_inputs })))
                gained,
      )

  stored_elsewhere :
      (flag : Bool) (height : ℕ) (committed : Db) (p : List BenchmarkInput × Db)
      → flag ≡ false
      → (stored t lib targets flag height committed p).committed ≡ committed
  stored_elsewhere false height committed p e = refl
  stored_elsewhere true height committed p e = cc e

  stored_here :
      IsTable t
      → (flag : Bool) (height : ℕ) (committed : Db) (p : List BenchmarkInput × Db) → flag ≡ true
      → let g = stored t lib targets flag height committed p in
        (g.committed ≡ g.db) × (checkpoint_height t g.committed ≡ pos height)
  unfolding checkpoint_height set_checkpoint_height
  stored_here laws true height committed (inputs, db) e =
      (refl, laws.select_height-update_height db (pos height))
  stored_here laws false height committed p e = cc e

  -- Between two checkpoints the set on the disk does not change.
  pub gain-NoCheckpoint :
      (db committed : Db) (blocks : List (ℕ × Block)) (g : Gain Db)
      → NoCheckpoint blocks
      → gain t lib targets db committed blocks ≡ ok g
      → g.committed ≡ committed
  unfolding gain
  gain-NoCheckpoint db committed [] g p h = sym (ap (λ (g : Gain Db). g.committed) (ok-inj h))
  gain-NoCheckpoint db committed ((height, block) ∷ blocks) g (first, p) h =
      let (g1, here, rest) =
        then_do_inv
          (on_ok (stored t lib targets (height % 1000 == 0) height committed)
            (extracted t lib targets true db height block))
          (λ (g : Gain Db). on_ok (behind g.inputs) (gain t lib targets g.db g.committed blocks)) g
          h in
      let (r, _, same) =
        on_ok_inv (stored t lib targets (height % 1000 == 0) height committed)
          (extracted t lib targets true db height block) g1 here in
      let (g2, later, same2) =
        on_ok_inv (behind g1.inputs) (gain t lib targets g1.db g1.committed blocks) g rest in
      sym (ap (λ (g : Gain Db). g.committed) same2)
      ∙ gain-NoCheckpoint g1.db g1.committed blocks g2 p later
      ∙ sym (ap (λ (g : Gain Db). g.committed) same)
      ∙ stored_elsewhere (height % 1000 == 0) height committed r first

  -- At a checkpoint the set of the process is on the disk, and carries its height.
  pub at_checkpoint :
      IsTable t
      → (w w' : Work Db) (height : ℕ) (block : Block) → (height % 1000 == 0) ≡ true
      → extract_blocks t lib targets true (negsuc 0) w ((height, block) ∷ []) ≡ ok w'
      → (w'.committed ≡ w'.db) × (checkpoint_height t w'.committed ≡ pos height)
  unfolding gain checkpoint_height set_checkpoint_height
  at_checkpoint laws w w' height block e h =
      let blocks = (height, block) ∷ [] in
      let (g, gained, same, _) =
        walk_elsewhere (negsuc 0) (negsuc 0) w w' w.partial w.all_inputs blocks
          (fresh-Walked blocks) (fresh-Walked blocks) h in
      let (g1, here, rest) =
        then_do_inv
          (on_ok (stored t lib targets (height % 1000 == 0) height w.committed)
            (extracted t lib targets true w.db height block))
          (λ (g : Gain Db). on_ok (behind g.inputs) (gain t lib targets g.db g.committed [])) g
          gained in
      let (r, _, same1) =
        on_ok_inv (stored t lib targets (height % 1000 == 0) height w.committed)
          (extracted t lib targets true w.db height block) g1 here in
      subst (λ (p : Db × Db). (p.0 ≡ p.1) × (checkpoint_height t p.0 ≡ pos height))
        (ap (λ (g : Gain Db). (g.committed, g.db)) same1
          ∙ ap (λ (g : Gain Db). (g.committed, g.db)) (ok-inj rest)
          ∙ ap (λ (w : Work Db). (w.committed, w.db)) same)
        (stored_here laws (height % 1000 == 0) height w.committed r e)

  -- A run that starts without a checkpoint has the same inputs in the partial file as in the process.
  pub fresh_partial :
      (db : Db) (w : Work Db) (blocks : List (ℕ × Block))
      → extract_blocks t lib targets true (negsuc 0) (started t db []) blocks ≡ ok w
      → w.partial ≡ w.all_inputs
  unfolding started
  fresh_partial db w blocks h =
      let (g, _, same, _) =
        walk_elsewhere (negsuc 0) (negsuc 0) (started t db []) w [] [] blocks (fresh-Walked blocks)
          (fresh-Walked blocks) h in
      sym (ap (λ (w : Work Db). w.partial) same)
      ∙ ap (λ inputs. inputs ++ g.inputs) (either_nothing (leb_ℤ (pos 0) (checkpoint_height t db)))
      ∙ ap (λ (w : Work Db). w.all_inputs) same

  -- A walk over two lists.
  pub walk_both :
      (resume : ℤ) (w w1 w2 : Work Db) (xs ys : List (ℕ × Block))
      → extract_blocks t lib targets true resume w xs ≡ ok w1
      → extract_blocks t lib targets true resume w1 ys ≡ ok w2
      → extract_blocks t lib targets true resume w (xs ++ ys) ≡ ok w2
  walk_both resume w w1 w2 xs ys h1 h2 =
      extract_blocks-append t lib targets resume w xs ys
      ∙ ap (λ r. then_do r (λ w'. extract_blocks t lib targets true resume w' ys)) h1
      ∙ h2

  -- The end of a run whose walk is known.
  pub extract_dataset_by :
      (max_height : ℤ) (db : Db) (partial : List BenchmarkInput) (blocks : List (ℕ × Block))
      (w : Work Db)
      → extract_blocks t lib targets true (checkpoint_height t db) (started t db partial) blocks
        ≡ ok w
      → extract_dataset t lib targets true max_height db partial blocks
        ≡ ok (w.all_inputs, set_checkpoint_height t w.db max_height)
  unfolding extract_dataset
  extract_dataset_by max_height db partial blocks w h = rw (extract_dataset, h) refl
