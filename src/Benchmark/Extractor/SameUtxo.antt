-- ===== src/Benchmark/Extractor/SameUtxo.antt =====
-- The three walks over a block that leave the same UTXO set: `_verify_block_inner`,
-- `extract_inputs_from_block` and `_update_utxo_only`.
use bitcoin_script.Prelude.{
  ℕ, map, ◌+◌, ◌≡◌, refl, ap, ◌∙◌, Bool, true, false, List, [], ◌∷◌, if◌then◌else◌, ◌==◌,
}
use bitcoin_script.Prelude.Int.{pos}
use bitcoin_script.Prelude.Text.{Text}
use bitcoin_script.Errors.{Result, ok, err, err≢ok, both_ok, ok-inj}
use bitcoin_script.Blockchain.Flags.{flags_for_block}
use bitcoin_script.Blockchain.Transaction.{Transaction, Block}
use bitcoin_script.Blockchain.Sighash.{Signatures}
use bitcoin_script.Blockchain.Utxo.{Table, set_checkpoint_height}
use bitcoin_script.Blockchain.Tasks.{Judge, all_found}
use bitcoin_script.Blockchain.VerifyBlock.{
  BlockResult, verify_block_inner, verify_txs, spend_inputs, add_outputs, fetch, Progress,
}
use bitcoin_script.Blockchain.VerifyBlock.Steps.{
  inputs_of, verify_inputs_parts, verify_tx_parts, verify_txs_parts, verify_block_inner_parts,
}
use bitcoin_script.Benchmark.{BenchmarkInput}
use bitcoin_script.Benchmark.Extractor.{
  Place, columns, with_inputs, extract_spends, extract_vins, extract_tx, extract_txs,
  extract_inputs_from_block, update_tx, update_txs, update_utxo_only,
}

module _ {Db : Type 0} (t : Table Db) (height tx_idx : ℕ) (db : Db) where
  update_tx_by :
      (d : Db) (tx : Transaction)
      → (if tx_idx == 0 then db else spend_inputs t db tx.vin) ≡ d
      → update_tx t height tx_idx db tx ≡ add_outputs t height d tx.txid 0 tx.vout
  unfolding update_tx
  update_tx_by d tx h = ap (λ d. add_outputs t height d tx.txid 0 tx.vout) h

  update_txs_next :
      (d e : Db) (tx : Transaction) (txs : List Transaction)
      → update_tx t height tx_idx db tx ≡ ok d
      → update_txs t height (tx_idx + 1) d txs ≡ ok e
      → update_txs t height tx_idx db (tx ∷ txs) ≡ ok e
  unfolding update_txs
  update_txs_next d e tx txs first others = rw (update_txs, first) others

module _ {Db Msg : Type 0} (t : Table Db) (lib : Signatures) (judge : Judge Msg)
    (height flags : ℕ) where
  inputs_of-spend_inputs :
      (is_coinbase : Bool) (db : Db) (tx : Transaction) (tx_idx : ℕ) (q : Progress Msg Db)
      → inputs_of t lib judge height flags is_coinbase db tx tx_idx ≡ ok q
      → (if is_coinbase then db else spend_inputs t db tx.vin) ≡ q.db
  unfolding inputs_of
  inputs_of-spend_inputs true db tx tx_idx q h = ap (λ (p : Progress Msg Db). p.db) (ok-inj h)
  inputs_of-spend_inputs false db tx tx_idx q h =
      let (c, collected, errors, same) =
        verify_inputs_parts t lib judge height flags db tx tx_idx q h in
      same

  verify_txs-update_txs :
      (db : Db) (tx_idx : ℕ) (txs : List Transaction) (p : Progress Msg Db)
      → verify_txs t lib judge height flags db tx_idx txs ≡ ok p
      → update_txs t height tx_idx db txs ≡ ok p.db
  unfolding verify_txs update_txs
  verify_txs-update_txs db tx_idx [] p h = ap ok (ap (λ (q : Progress Msg Db). q.db) (ok-inj h))
  verify_txs-update_txs db tx_idx (tx ∷ txs) p h =
      let (q, q', first, others, same, _) =
        verify_txs_parts t lib judge height flags db tx_idx tx txs p h in
      let (r, inputs, added, _) = verify_tx_parts t lib judge height flags db tx tx_idx q first in
      update_txs_next t height tx_idx db q.db p.db tx txs
        (update_tx_by t height tx_idx db r.db tx
            (inputs_of-spend_inputs (tx_idx == 0) db tx tx_idx r inputs)
          ∙ added)
        (verify_txs-update_txs q.db (tx_idx + 1) txs q' others ∙ ap ok same)

-- If `_verify_block_inner` ends without an exception, so does `_update_utxo_only` on the same database
-- and block, and the two leave the same database but for the checkpoint height that the first stores.
pub verify_block_inner-update_utxo_only :
    {Db Msg : Type 0} (t : Table Db) (lib : Signatures) (judge : Judge Msg) (db : Db)
    (block : Block) (height : ℕ) (r : BlockResult Msg) (db' : Db)
    → verify_block_inner t lib judge db block height ≡ ok (r, db')
    → (d : Db) × (update_utxo_only t db block height ≡ ok d)
      × (set_checkpoint_height t d (pos height) ≡ db')
unfolding update_utxo_only
verify_block_inner-update_utxo_only t lib judge db block height r db' h =
    let (p, done, _, stored) = verify_block_inner_parts t lib judge db block height r db' h in
    (
      p.db,
      verify_txs-update_txs t lib judge height (flags_for_block height block.n_time) db 0 block.vtx
          p done,
      stored,
    )

with_inputs_ok :
    {Db : Type 0} (inputs : List BenchmarkInput) (r : Result (List BenchmarkInput × Db))
    (p : List BenchmarkInput × Db)
    → with_inputs inputs r ≡ ok p
    → (q : List BenchmarkInput × Db) × (r ≡ ok q) × (q.1 ≡ p.1)
with_inputs_ok {Db = Db} inputs (ok q) p h =
    (q, refl, ap (λ (s : List BenchmarkInput × Db). s.1) (ok-inj h))
with_inputs_ok inputs (err e) p h = absurd (err≢ok h)

module _ {Db : Type 0} (t : Table Db) (lib : Signatures) where
  extract_spends-spend_inputs :
      (is_coinbase : Bool) (place : Place) (db : Db) (tx : Transaction)
      (p : List BenchmarkInput × Db)
      → (if is_coinbase then ok ([], db) else extract_spends t lib place db tx) ≡ ok p
      → (if is_coinbase then db else spend_inputs t db tx.vin) ≡ p.1
  unfolding extract_spends
  extract_spends-spend_inputs true place db tx p h =
      ap (λ (q : List BenchmarkInput × Db). q.1) (ok-inj h)
  extract_spends-spend_inputs false place db tx p h =
      let (inputs, _, same) =
        both_ok
          (extract_vins t lib place db tx (columns (all_found (map (fetch t db) tx.vin))) 0 tx.vin)
          (λ inputs. ok (inputs, spend_inputs t db tx.vin)) p h in
      ap (λ (q : List BenchmarkInput × Db). q.1) (ok-inj same)

  extract_tx-update_tx :
      (place : Place) (db : Db) (tx : Transaction) (p : List BenchmarkInput × Db)
      → extract_tx t lib place db tx ≡ ok p
      → update_tx t place.height place.tx_idx db tx ≡ ok p.1
  unfolding extract_tx
  extract_tx-update_tx place db tx p h =
      let (q, spends, rest) =
        both_ok (if place.tx_idx == 0 then ok ([], db) else extract_spends t lib place db tx)
          (λ q. elim (add_outputs t place.height q.1 tx.txid 0 tx.vout) [
            | err e ↦ err e
            | ok db'' ↦ ok (q.0, db'')
          ])
          p h in
      let (d, added, same) =
        both_ok (add_outputs t place.height q.1 tx.txid 0 tx.vout) (λ d. ok (q.0, d)) p rest in
      update_tx_by t place.height place.tx_idx db q.1 tx
        (extract_spends-spend_inputs (place.tx_idx == 0) place db tx q spends)
      ∙ added
      ∙ ap ok (ap (λ (q : List BenchmarkInput × Db). q.1) (ok-inj same))

  extract_txs-update_txs :
      (place : Place) (db : Db) (txs : List Transaction) (p : List BenchmarkInput × Db)
      → extract_txs t lib place db txs ≡ ok p
      → update_txs t place.height place.tx_idx db txs ≡ ok p.1
  unfolding extract_txs update_txs
  extract_txs-update_txs place db [] p h =
      ap ok (ap (λ (q : List BenchmarkInput × Db). q.1) (ok-inj h))
  extract_txs-update_txs place db (tx ∷ txs) p h =
      let next : Place = record place { tx_idx = place.tx_idx + 1 } in
      let (q, first, rest) =
        both_ok (extract_tx t lib place db tx)
          (λ q. with_inputs q.0 (extract_txs t lib next q.1 txs)) p h in
      let (q', others, same) = with_inputs_ok q.0 (extract_txs t lib next q.1 txs) p rest in
      update_txs_next t place.height place.tx_idx db q.1 p.1 tx txs
        (extract_tx-update_tx place db tx q first)
        (extract_txs-update_txs next q.1 txs q' others ∙ ap ok same)

-- If `extract_inputs_from_block` ends without an exception, so does `_update_utxo_only` on the same
-- database and block, and the two leave the same database.
pub extract_inputs_from_block-update_utxo_only :
    {Db : Type 0} (t : Table Db) (lib : Signatures) (db : Db) (block : Block) (height : ℕ)
    (category : Text) (inputs : List BenchmarkInput) (db' : Db)
    → extract_inputs_from_block t lib db block height category ≡ ok (inputs, db')
    → update_utxo_only t db block height ≡ ok db'
unfolding extract_inputs_from_block update_utxo_only
extract_inputs_from_block-update_utxo_only t lib db block height category inputs db' h =
    extract_txs-update_txs t lib
      (record {
        height = height;
        flags = flags_for_block height block.n_time;
        category = category;
        tx_idx = 0;
      })
      db block.vtx (inputs, db') h
