-- ===== src/Benchmark/Extraction/Frame.antt =====
-- What a walk of `extract_dataset` depends on, and what it adds.
use bitcoin_script.Prelude.{
  ℕ, ◌%◌, ◌≡◌, refl, sym, ap, ◌∙◌, Bool, true, false, ◌&&◌, List, [], ◌∷◌, ◌++◌, append_assoc,
  append-nil, if◌then◌else◌, ◌==◌,
}
use bitcoin_script.Prelude.Int.{ℤ, pos, leb_ℤ}
use bitcoin_script.Errors.{Result, ok, err}
use bitcoin_script.Blockchain.Transaction.{Block}
use bitcoin_script.Blockchain.Sighash.{Signatures}
use bitcoin_script.Blockchain.Utxo.{Table, set_checkpoint_height}
use bitcoin_script.Benchmark.{BenchmarkInput}
use bitcoin_script.Benchmark.Extraction.{
  Targets, Work, with_extracted, committed_at, checkpoint, extracted, extract_round, extract_blocks,
}

-- Every block of a list is skipped, or none.
abbrev pub Skipped : ℤ → List (ℕ × Block) → Type 0
Skipped resume [] = Unit {0}
Skipped resume ((height, block) ∷ blocks) =
    (leb_ℤ (pos height) resume ≡ true) × Skipped resume blocks

abbrev pub Walked : ℤ → List (ℕ × Block) → Type 0
Walked resume [] = Unit {0}
Walked resume ((height, block) ∷ blocks) =
    (leb_ℤ (pos height) resume ≡ false) × Walked resume blocks

abbrev pub NoCheckpoint : List (ℕ × Block) → Type 0
NoCheckpoint [] = Unit {0}
NoCheckpoint ((height, block) ∷ blocks) = ((height % 1000 == 0) ≡ false) × NoCheckpoint blocks

-- What a walk adds to a work: inputs, and the sets of the process and of the disk behind it.
pub record Gain (Db : Type 0) : Type 0 where
  pub inputs : List BenchmarkInput
  pub db : Db
  pub committed : Db

abbrev pub applied : {Db : Type 0} → Gain Db → Work Db → Work Db
applied g w = record {
  db = g.db;
  committed = g.committed;
  partial = w.partial ++ g.inputs;
  all_inputs = w.all_inputs ++ g.inputs;
}

abbrev pub behind : {Db : Type 0} → List BenchmarkInput → Gain Db → Gain Db
behind inputs g = record g { inputs = inputs ++ g.inputs }

abbrev pub on_ok : {A B : Type 0} → (A → B) → Result A → Result B
on_ok f (err e) = err e
on_ok f (ok a) = ok (f a)

abbrev pub then_do : {A B : Type 0} → Result A → (A → Result B) → Result B
then_do (err e) f = err e
then_do (ok a) f = f a

module _ {Db : Type 0} (t : Table Db) (lib : Signatures) (targets : Targets) where
  abbrev pub stored : Bool → ℕ → Db → List BenchmarkInput × Db → Gain Db
  stored true height committed (inputs, db) = record {
    inputs = inputs;
    db = set_checkpoint_height t db (pos height);
    committed = set_checkpoint_height t db (pos height);
  }
  stored false height committed (inputs, db) = record {
    inputs = inputs;
    db = db;
    committed = committed;
  }

  -- The loop on blocks that are not skipped, without the inputs that were there before.
  unfoldable pub gain : Db → Db → List (ℕ × Block) → Result (Gain Db)
  gain db committed [] = ok (record { inputs = []; db = db; committed = committed })
  gain db committed ((height, block) ∷ blocks) =
      then_do
        (on_ok (stored (height % 1000 == 0) height committed)
          (extracted t lib targets true db height block))
        (λ (g : Gain Db). on_ok (behind g.inputs) (gain g.db g.committed blocks))

  extract_round-stored :
      (w : Work Db) (height : ℕ) (block : Block)
      → extract_round t lib targets true w height block
        ≡ on_ok
            (λ g. applied g w)
            (on_ok
              (stored (height % 1000 == 0) height w.committed)
              (extracted t lib targets true w.db height block))
  unfolding extract_round checkpoint
  extract_round-stored w height block =
      by_result (extracted t lib targets true w.db height block) (height % 1000 == 0)
    where
      by_result :
          (r : Result (List BenchmarkInput × Db)) (at_checkpoint : Bool)
          → elim r [
            | err e ↦ err e
            | ok (inputs, db) ↦ ok (
                if true && at_checkpoint
                then committed_at t (pos height) (with_extracted true inputs db w)
                else with_extracted true inputs db w)
          ]
            ≡ on_ok (λ g. applied g w) (on_ok (stored at_checkpoint height w.committed) r)
      by_result (err e) at_checkpoint = refl
      by_result (ok p) true = refl
      by_result (ok p) false = refl

  applied-nothing :
      (w : Work Db) → applied (record { inputs = []; db = w.db; committed = w.committed }) w ≡ w
  applied-nothing w =
      λ i. record w { partial = append-nil w.partial i; all_inputs = append-nil w.all_inputs i }

  applied-behind :
      (g h : Gain Db) (w : Work Db) → applied h (applied g w) ≡ applied (behind g.inputs h) w
  applied-behind g h w = λ i. record {
    db = h.db;
    committed = h.committed;
    partial = append_assoc w.partial g.inputs h.inputs i;
    all_inputs = append_assoc w.all_inputs g.inputs h.inputs i;
  }

  on_ok-applied :
      (g : Gain Db) (w : Work Db) (r : Result (Gain Db))
      → on_ok (λ h. applied h (applied g w)) r
        ≡ on_ok (λ h. applied h w) (on_ok (behind g.inputs) r)
  on_ok-applied g w (err e) = refl
  on_ok-applied g w (ok h) = ap ok (applied-behind g h w)

  pub extract_blocks-gain :
      (resume : ℤ) (w : Work Db) (blocks : List (ℕ × Block))
      → Walked resume blocks
      → extract_blocks t lib targets true resume w blocks
        ≡ on_ok (λ g. applied g w) (gain w.db w.committed blocks)
  unfolding extract_blocks gain
  extract_blocks-gain resume w [] walked = ap ok (sym (applied-nothing w))
  extract_blocks-gain resume w ((height, block) ∷ blocks) (later, walked) =
      rw (extract_blocks, later, extract_round-stored w height block)
        (by_stored
          (on_ok (stored (height % 1000 == 0) height w.committed)
            (extracted t lib targets true w.db height block))
          (λ w'. extract_blocks-gain resume w' blocks walked))
    where
      by_stored :
          (r : Result (Gain Db))
          → ((w' : Work Db)
              → extract_blocks t lib targets true resume w' blocks
                ≡ on_ok (λ g. applied g w') (gain w'.db w'.committed blocks))
          → elim (on_ok (λ g. applied g w) r) [
            | err e ↦ err e
            | ok w' ↦ extract_blocks t lib targets true resume w' blocks
          ]
            ≡ on_ok
                (λ g. applied g w)
                (then_do r
                  (λ (g : Gain Db). on_ok (behind g.inputs) (gain g.db g.committed blocks)))
      by_stored (err e) others = refl
      by_stored (ok g) others =
          others (applied g w) ∙ on_ok-applied g w (gain g.db g.committed blocks)

  -- Blocks that were walked before are skipped.
  pub extract_blocks-Skipped :
      (resume : ℤ) (w : Work Db) (blocks others : List (ℕ × Block))
      → Skipped resume blocks
      → extract_blocks t lib targets true resume w (blocks ++ others)
        ≡ extract_blocks t lib targets true resume w others
  unfolding extract_blocks
  extract_blocks-Skipped resume w [] others skipped = refl
  extract_blocks-Skipped resume w ((height, block) ∷ blocks) others (first, skipped) =
      rw (extract_blocks, first) (extract_blocks-Skipped resume w blocks others skipped)

  -- A walk over two lists is two walks.
  pub extract_blocks-append :
      (resume : ℤ) (w : Work Db) (blocks others : List (ℕ × Block))
      → extract_blocks t lib targets true resume w (blocks ++ others)
        ≡ then_do
            (extract_blocks t lib targets true resume w blocks)
            (λ w'. extract_blocks t lib targets true resume w' others)
  unfolding extract_blocks
  extract_blocks-append resume w [] others = refl
  extract_blocks-append resume w ((height, block) ∷ blocks) others =
      by_height (leb_ℤ (pos height) resume) (extract_round t lib targets true w height block)
        (λ w'. extract_blocks-append resume w' blocks others)
    where
      by_height :
          (skipped : Bool) (r : Result (Work Db))
          → ((w' : Work Db)
              → extract_blocks t lib targets true resume w' (blocks ++ others)
                ≡ then_do
                    (extract_blocks t lib targets true resume w' blocks)
                    (λ w''. extract_blocks t lib targets true resume w'' others))
          → (if skipped
              then extract_blocks t lib targets true resume w (blocks ++ others)
              else elim r [
                | err e ↦ err e
                | ok w' ↦ extract_blocks t lib targets true resume w' (blocks ++ others)
              ])
            ≡ then_do
                (if skipped then extract_blocks t lib targets true resume w blocks else elim r [
                  | err e ↦ err e
                  | ok w' ↦ extract_blocks t lib targets true resume w' blocks
                ])
                (λ w'. extract_blocks t lib targets true resume w' others)
      by_height true r tail = tail w
      by_height false (err e) tail = refl
      by_height false (ok w') tail = tail w'
