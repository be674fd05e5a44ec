-- ===== src/Blockchain/VerifyBlock/Pool.antt =====
-- The process pool, which judges the inputs of a transaction in parallel.
use std.Path.{fun_ext}
use bitcoin_script.Prelude.{
  ℕ, ◌+◌, ◌≡◌, refl, ap, ◌∙◌, false, ◌&&◌, List, [], ◌∷◌, ◌++◌, map, length, if◌then◌else◌, ◌==◌,
  ltb, Bool-cases, inl, inr,
}
use bitcoin_script.Prelude.Int.{pos}
use bitcoin_script.Errors.{Result, ok, err}
use bitcoin_script.Blockchain.Flags.{flags_for_block}
use bitcoin_script.Blockchain.Transaction.{Transaction, Block}
use bitcoin_script.Blockchain.Sighash.{Signatures}
use bitcoin_script.Blockchain.Utxo.{Table, set_checkpoint_height}
use bitcoin_script.Blockchain.Tasks.{Task, Report, Judge, prevouts_blob, run_tasks, judged}
use bitcoin_script.Blockchain.VerifyBlock.{
  verify_block_inner, fetch, collect, verify_inputs, verify_tx, verify_txs, spend_inputs,
  add_outputs, no_inputs, Progress, after,
}

abbrev pub Agrees : {Msg : Type 0} → Judge Msg → Type 0
Agrees judge = (task : Task) → judge.worker task ≡ judge.own task

judged-Agrees :
    {Msg : Type 0} (judge : Judge Msg) (tasks : List Task)
    → Agrees judge
    → judged judge.worker tasks ≡ judged judge.own tasks
unfolding judged
judged-Agrees judge [] same = refl
judged-Agrees judge (task ∷ tasks) same = cc (same task, judged-Agrees judge tasks same)

-- Where the workers judge as the process itself does, it does not matter who runs the tasks.
pub run_tasks-own :
    {Msg : Type 0} (judge : Judge Msg) (tasks : List Task)
    → Agrees judge
    → run_tasks judge tasks ≡ judged judge.own tasks
unfolding run_tasks
run_tasks-own judge tasks same = elim (Bool-cases (judge.has_pool && ltb 1 (length tasks))) [
  | inl e ↦ rw (e) (judged-Agrees judge tasks same)
  | inr e ↦ rw (e) refl
]

abbrev pub without_pool : {Msg : Type 0} → Judge Msg → Judge Msg
without_pool judge = record judge { has_pool = false }

module _ {Db Msg : Type 0} (t : Table Db) (lib : Signatures) (judge : Judge Msg)
    (same : Agrees judge) where
  run_tasks-without_pool :
      (tasks : List Task) → run_tasks judge tasks ≡ run_tasks (without_pool judge) tasks
  unfolding run_tasks
  run_tasks-without_pool tasks = run_tasks-own judge tasks same

  verify_inputs-without_pool :
      (height flags : ℕ) (db : Db) (tx : Transaction) (tx_idx : ℕ)
      → verify_inputs t lib judge height flags db tx tx_idx
        ≡ verify_inputs t lib (without_pool judge) height flags db tx tx_idx
  unfolding verify_inputs
  verify_inputs-without_pool height flags db tx tx_idx =
      ap
        (λ (run : List Task → List (Report Msg)).
          elim (collect t lib flags db tx tx_idx (prevouts_blob (map (fetch t db) tx.vin)) 0
            tx.vin) [
              | err e ↦ err e
              | ok c ↦ ok (record {
                errors = c.reports ++ run c.tasks;
                input_count = length c.tasks;
                db = spend_inputs t db tx.vin;
              })
            ])
        (fun_ext run_tasks-without_pool)

  verify_tx-without_pool :
      (height flags : ℕ) (db : Db) (tx : Transaction) (tx_idx : ℕ)
      → verify_tx t lib judge height flags db tx tx_idx
        ≡ verify_tx t lib (without_pool judge) height flags db tx tx_idx
  unfolding verify_tx
  verify_tx-without_pool height flags db tx tx_idx =
      ap
        (λ (inputs : Result (Progress Msg Db)).
          elim (if tx_idx == 0 then no_inputs db else inputs) [
            | err e ↦ err e
            | ok p ↦ elim (add_outputs t height p.db tx.txid 0 tx.vout) [
              | err e ↦ err e
              | ok db' ↦ ok (record p { db = db' })
            ]
          ])
        (verify_inputs-without_pool height flags db tx tx_idx)

  verify_txs-without_pool :
      (height flags : ℕ) (db : Db) (tx_idx : ℕ) (txs : List Transaction)
      → verify_txs t lib judge height flags db tx_idx txs
        ≡ verify_txs t lib (without_pool judge) height flags db tx_idx txs
  unfolding verify_txs
  verify_txs-without_pool height flags db tx_idx [] = refl
  verify_txs-without_pool height flags db tx_idx (tx ∷ txs) =
      ap
        (λ (others : Db → Result (Progress Msg Db)).
          elim (verify_tx t lib judge height flags db tx tx_idx) [
            | err e ↦ err e
            | ok p ↦ after p (others p.db)
          ])
        (fun_ext (λ d. verify_txs-without_pool height flags d (tx_idx + 1) txs))
      ∙ ap
          (λ (first : Result (Progress Msg Db)). elim first [
            | err e ↦ err e
            | ok p ↦
                after p (verify_txs t lib (without_pool judge) height flags p.db (tx_idx + 1) txs)
          ])
          (verify_tx-without_pool height flags db tx tx_idx)

-- If a worker judges every task as the process itself does, the verification of a block with the
-- process pool returns the same result, with the same errors in the same order, and leaves the same
-- database as without it, or ends with the same exception.
pub verify_block_inner-without_pool :
    {Db Msg : Type 0} (t : Table Db) (lib : Signatures) (judge : Judge Msg) (db : Db)
    (block : Block) (height : ℕ)
    → Agrees judge
    → verify_block_inner t lib judge db block height
      ≡ verify_block_inner t lib (without_pool judge) db block height
unfolding verify_block_inner
verify_block_inner-without_pool {Db = Db} {Msg = Msg} t lib judge db block height same =
    ap
      (λ (r : Result (Progress Msg Db)). elim r [
        | err e ↦ err e
        | ok p ↦ ok (
          record {
            height = height;
            tx_count = length block.vtx;
            input_count = p.input_count;
            errors = p.errors;
          },
          set_checkpoint_height t p.db (pos height),
        )
      ])
      (verify_txs-without_pool t lib judge same height (flags_for_block height block.n_time) db 0
        block.vtx)
