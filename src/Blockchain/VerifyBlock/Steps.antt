-- ===== src/Blockchain/VerifyBlock/Steps.antt =====
-- The steps that a block takes where no exception ends it.
use bitcoin_script.Prelude.{
  ℕ, ◌+◌, ◌≡◌, refl, ap, ◌∙◌, Bool, List, ◌∷◌, ◌++◌, map, length, if◌then◌else◌, ◌==◌,
}
use bitcoin_script.Prelude.Int.{pos}
use bitcoin_script.Errors.{Result, ok, err, err≢ok, both_ok, ok-inj}
use bitcoin_script.Blockchain.Flags.{flags_for_block}
use bitcoin_script.Blockchain.Transaction.{Transaction, Block}
use bitcoin_script.Blockchain.Sighash.{Signatures}
use bitcoin_script.Blockchain.Utxo.{Table, set_checkpoint_height}
use bitcoin_script.Blockchain.Tasks.{Judge, Collected, prevouts_blob, run_tasks}
use bitcoin_script.Blockchain.VerifyBlock.{
  BlockResult, verify_block_inner, fetch, collect, verify_inputs, verify_tx, verify_txs,
  spend_inputs, add_outputs, no_inputs, Progress, after,
}

module _ {Db Msg : Type 0} (t : Table Db) (lib : Signatures) (judge : Judge Msg)
    (height flags : ℕ) where
  unfoldable pub inputs_of : Bool → Db → Transaction → ℕ → Result (Progress Msg Db)
  inputs_of is_coinbase db tx tx_idx =
      if is_coinbase then no_inputs db else verify_inputs t lib judge height flags db tx tx_idx

  pub verify_inputs_parts :
      (db : Db) (tx : Transaction) (tx_idx : ℕ) (p : Progress Msg Db)
      → verify_inputs t lib judge height flags db tx tx_idx ≡ ok p
      → (c : Collected Msg) × (collect t lib flags db tx tx_idx
            (prevouts_blob (map (fetch t db) tx.vin))
            0
            tx.vin
          ≡ ok c)
        × (c.reports ++ run_tasks judge c.tasks ≡ p.errors)
        × (spend_inputs t db tx.vin ≡ p.db)
  unfolding verify_inputs
  verify_inputs_parts db tx tx_idx p h =
      let (c, collected, done) =
        both_ok
          (collect t lib flags db tx tx_idx (prevouts_blob (map (fetch t db) tx.vin)) 0 tx.vin)
          (λ c. ok (record {
            errors = c.reports ++ run_tasks judge c.tasks;
            input_count = length c.tasks;
            db = spend_inputs t db tx.vin;
          }))
          p h in
      (
        c,
        collected,
        ap (λ (q : Progress Msg Db). q.errors) (ok-inj done),
        ap (λ (q : Progress Msg Db). q.db) (ok-inj done),
      )

  pub verify_tx_parts :
      (db : Db) (tx : Transaction) (tx_idx : ℕ) (p : Progress Msg Db)
      → verify_tx t lib judge height flags db tx tx_idx ≡ ok p
      → (q : Progress Msg Db) × (inputs_of (tx_idx == 0) db tx tx_idx ≡ ok q)
        × (add_outputs t height q.db tx.txid 0 tx.vout ≡ ok p.db)
        × (q.errors ≡ p.errors)
  unfolding verify_tx inputs_of
  verify_tx_parts db tx tx_idx p h =
      let (q, inputs, rest) =
        both_ok (inputs_of (tx_idx == 0) db tx tx_idx)
          (λ q. elim (add_outputs t height q.db tx.txid 0 tx.vout) [
            | err e ↦ err e
            | ok d ↦ ok (record q { db = d })
          ])
          p h in
      let (d, added, done) =
        both_ok (add_outputs t height q.db tx.txid 0 tx.vout) (λ d. ok (record q { db = d })) p
          rest in
      (
        q,
        inputs,
        added ∙ ap (λ (s : Progress Msg Db). ok s.db) (ok-inj done),
        ap (λ (s : Progress Msg Db). s.errors) (ok-inj done),
      )

  after_ok :
      (p q : Progress Msg Db) (r : Result (Progress Msg Db))
      → after p r ≡ ok q
      → (q' : Progress Msg Db) × (r ≡ ok q') × (q'.db ≡ q.db) × (p.errors ++ q'.errors ≡ q.errors)
  after_ok p q (ok q') h = (
    q',
    refl,
    ap (λ (s : Progress Msg Db). s.db) (ok-inj h),
    ap (λ (s : Progress Msg Db). s.errors) (ok-inj h),
  )
  after_ok p q (err e) h = absurd (err≢ok h)

  pub verify_txs_parts :
      (db : Db) (tx_idx : ℕ) (tx : Transaction) (txs : List Transaction) (p : Progress Msg Db)
      → verify_txs t lib judge height flags db tx_idx (tx ∷ txs) ≡ ok p
      → (q q' : Progress Msg Db) × (verify_tx t lib judge height flags db tx tx_idx ≡ ok q)
        × (verify_txs t lib judge height flags q.db (tx_idx + 1) txs ≡ ok q')
        × (q'.db ≡ p.db)
        × (q.errors ++ q'.errors ≡ p.errors)
  unfolding verify_txs
  verify_txs_parts db tx_idx tx txs p h =
      let (q, first, rest) =
        both_ok (verify_tx t lib judge height flags db tx tx_idx)
          (λ q. after q (verify_txs t lib judge height flags q.db (tx_idx + 1) txs)) p h in
      let (q', others, same, errors) =
        after_ok q p (verify_txs t lib judge height flags q.db (tx_idx + 1) txs) rest in
      (q, q', first, others, same, errors)

pub verify_block_inner_parts :
    {Db Msg : Type 0} (t : Table Db) (lib : Signatures) (judge : Judge Msg) (db : Db)
    (block : Block) (height : ℕ) (r : BlockResult Msg) (db' : Db)
    → verify_block_inner t lib judge db block height ≡ ok (r, db')
    → (p : Progress Msg Db) × (verify_txs t lib judge height
          (flags_for_block height block.n_time)
          db
          0
          block.vtx
        ≡ ok p)
      × (p.errors ≡ r.errors)
      × (set_checkpoint_height t p.db (pos height) ≡ db')
unfolding verify_block_inner
verify_block_inner_parts {Db = Db} {Msg = Msg} t lib judge db block height r db' h =
    let (p, done, last) =
      both_ok (verify_txs t lib judge height (flags_for_block height block.n_time) db 0 block.vtx)
        (λ p. ok (
          record {
            height = height;
            tx_count = length block.vtx;
            input_count = p.input_count;
            errors = p.errors;
          },
          set_checkpoint_height t p.db (pos height),
        ))
        (r, db') h in
    (
      p,
      done,
      ap (λ (s : BlockResult Msg × Db). s.0.errors) (ok-inj last),
      ap (λ (s : BlockResult Msg × Db). s.1) (ok-inj last),
    )
