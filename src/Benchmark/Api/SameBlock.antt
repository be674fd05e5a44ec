-- ===== src/Benchmark/Api/SameBlock.antt =====
-- The two extractors of the benchmark: `_extract_inputs_from_api_block` of api_extractor.py and
-- `extract_inputs_from_block` of extractor.py, on one block.
use bitcoin_script.Prelude.{
  ℕ, ◌+◌, ◌≡◌, refl, ap, ◌∙◌, Bool, true, false, List, [], ◌∷◌, ◌++◌, map, All, if◌then◌else◌, ◌==◌,
}
use bitcoin_script.Prelude.Text.{Text}
use bitcoin_script.Errors.{Result, ok, err, err≢ok, both_ok, ok-inj}
use bitcoin_script.Blockchain.Flags.{flags_for_block}
use bitcoin_script.Blockchain.Transaction.{Transaction, Block}
use bitcoin_script.Blockchain.Sighash.{Signatures}
use bitcoin_script.Blockchain.Utxo.{Table}
use bitcoin_script.Blockchain.Tasks.{all_found}
use bitcoin_script.Blockchain.VerifyBlock.{fetch, spend_inputs, add_outputs}
use bitcoin_script.Benchmark.{BenchmarkInput}
use bitcoin_script.Benchmark.Extractor.{
  Place, columns, with_inputs, extract_vins, extract_spends, extract_tx, extract_txs,
  extract_inputs_from_block,
}
use bitcoin_script.Benchmark.Api.{
  ApiTx, Wire, api_spends, is_coinbase, join_inputs, api_tx_inputs, api_txs,
  extract_inputs_from_api_block,
}
use bitcoin_script.Benchmark.Api.Description.{DescribesSpend, IsSerialized}
use bitcoin_script.Benchmark.Api.SameInputs.{api_spends-extract_vins}
use bitcoin_script.Benchmark.Api.Reconstructed.{
  reconstruct_tx-DescribesSpend, DescribesSpend-Described,
}

joined :
    {Db : Type 0} (inputs : List BenchmarkInput) (r : Result (List BenchmarkInput × Db))
    (all : List BenchmarkInput) (db : Db)
    → with_inputs inputs r ≡ ok (all, db)
    → (rest : List BenchmarkInput) × (d : Db) × (r ≡ ok (rest, d)) × (inputs ++ rest ≡ all)
joined {Db = Db} inputs (ok (rest, d)) all db h =
    (rest, d, refl, ap (λ (s : List BenchmarkInput × Db). s.0) (ok-inj h))
joined inputs (err e) all db h = absurd (err≢ok h)

module _ {Db : Type 0} (t : Table Db) where
  -- A transaction of the API is the transaction of the block: a coinbase where this is the first, and
  -- otherwise with the same fields.
  abbrev pub DescribesTx : Db → ℕ → ApiTx → Transaction → Type 0
  DescribesTx db tx_idx api tx =
      (is_coinbase api.vin ≡ ok (tx_idx == 0))
      × ((tx_idx == 0) ≡ false → DescribesSpend t db api tx)

  abbrev pub Describes : Signatures → Place → Db → List ApiTx → List Transaction → Type 0
  Describes lib place db [] [] = Unit {0}
  Describes lib place db [] (tx ∷ txs) = ⊥
  Describes lib place db (api ∷ apis) [] = ⊥
  Describes lib place db (api ∷ apis) (tx ∷ txs) =
      DescribesTx db place.tx_idx api tx
      × ((inputs : List BenchmarkInput) (db' : Db)
          → extract_tx t lib place db tx ≡ ok (inputs, db')
          → Describes lib (record place { tx_idx = place.tx_idx + 1 }) db' apis txs)

  module _ (lib : Signatures) (wire : Wire) where
    inputs_by_place :
        (first : Bool) (place : Place) (db : Db) (api : ApiTx) (tx : Transaction)
        (p : List BenchmarkInput × Db)
        → (first ≡ false → DescribesSpend t db api tx)
        → IsSerialized wire tx
        → (if first then ok ([], db) else extract_spends t lib place db tx) ≡ ok p
        → (if first then ok [] else api_spends lib wire place api) ≡ ok p.0
    unfolding extract_spends
    inputs_by_place true place db api tx p described wired h =
        ap ok (ap (λ (q : List BenchmarkInput × Db). q.0) (ok-inj h))
    inputs_by_place false place db api tx p described wired h =
        let (inputs, made, same) =
          both_ok
            (extract_vins t lib place db tx (columns (all_found (map (fetch t db) tx.vin))) 0
              tx.vin)
            (λ inputs. ok (inputs, spend_inputs t db tx.vin)) p h in
        let d = described refl in
        api_spends-extract_vins t lib place wire db tx api
          (reconstruct_tx-DescribesSpend t wire db api tx d ∙ wired.0) wired.1
          (DescribesSpend-Described t db api tx d)
        ∙ made
        ∙ ap ok (ap (λ (q : List BenchmarkInput × Db). q.0) (ok-inj same))

    api_tx_inputs-extract_tx :
        (place : Place) (db : Db) (api : ApiTx) (tx : Transaction) (p : List BenchmarkInput × Db)
        → DescribesTx db place.tx_idx api tx
        → IsSerialized wire tx
        → extract_tx t lib place db tx ≡ ok p
        → api_tx_inputs lib wire place api ≡ ok p.0
    unfolding api_tx_inputs extract_tx
    api_tx_inputs-extract_tx place db api tx p (coinbase, described) wired h =
        let (q, spends, rest) =
          both_ok (if place.tx_idx == 0 then ok ([], db) else extract_spends t lib place db tx)
            (λ q. elim (add_outputs t place.height q.1 tx.txid 0 tx.vout) [
              | err e ↦ err e
              | ok db'' ↦ ok (q.0, db'')
            ])
            p h in
        let (d, _, same) =
          both_ok (add_outputs t place.height q.1 tx.txid 0 tx.vout) (λ d. ok (q.0, d)) p rest in
        rw (api_tx_inputs, coinbase)
          (inputs_by_place (place.tx_idx == 0) place db api tx q described wired spends
            ∙ ap ok (ap (λ (q : List BenchmarkInput × Db). q.0) (ok-inj same)))

    api_txs-extract_txs :
        (place : Place) (db : Db) (apis : List ApiTx) (txs : List Transaction)
        (inputs : List BenchmarkInput) (db' : Db)
        → Describes lib place db apis txs
        → All (IsSerialized wire) txs
        → extract_txs t lib place db txs ≡ ok (inputs, db')
        → api_txs lib wire place apis ≡ ok inputs
    unfolding api_txs extract_txs
    api_txs-extract_txs place db [] [] inputs db' d wired h =
        ap ok (ap (λ (p : List BenchmarkInput × Db). p.0) (ok-inj h))
    api_txs-extract_txs place db [] (tx ∷ txs) inputs db' d wired h = absurd d
    api_txs-extract_txs place db (api ∷ apis) [] inputs db' d wired h = absurd d
    api_txs-extract_txs place db (api ∷ apis) (tx ∷ txs) inputs db' (first, others) (wired, wires)
          h =
        let next : Place = record place { tx_idx = place.tx_idx + 1 } in
        let (q, here, rest) =
          both_ok (extract_tx t lib place db tx)
            (λ q. with_inputs q.0 (extract_txs t lib next q.1 txs)) (inputs, db') h in
        let (more, d, behind, all) = joined q.0 (extract_txs t lib next q.1 txs) inputs db' rest in
        ap (λ r. join_inputs r (api_txs lib wire next apis))
          (api_tx_inputs-extract_tx place db api tx q first wired here)
        ∙ ap (join_inputs (ok q.0))
            (api_txs-extract_txs next q.1 apis txs more d (others q.0 q.1 here) wires behind)
        ∙ ap ok all

-- Where the inputs of a block stand, from the first transaction on.
abbrev pub block_place : ℕ → ℕ → Text → Place
block_place height n_time category = record {
  height = height;
  flags = flags_for_block height n_time;
  category = category;
  tx_idx = 0;
}

-- If the API describes the transactions of a block, the first and no other as a coinbase, and of the
-- others the version, the lock time, the outputs and the inputs (the txid with its bytes reversed, the
-- scripts and the witness items in hex, and as prevouts what the UTXO set has before the transaction),
-- each of them with no witness stacks or with one that has an item, if python-bitcoinlib serializes the
-- fields of each transaction to its bytes and reads it from them, and if extract_inputs_from_block ends
-- without an exception, then _extract_inputs_from_api_block returns the same records in the same order.
pub extract_inputs_from_api_block-extract_inputs_from_block :
    {Db : Type 0} (t : Table Db) (lib : Signatures) (wire : Wire) (db : Db) (block : Block)
    (apis : List ApiTx) (height : ℕ) (category : Text) (inputs : List BenchmarkInput) (db' : Db)
    → Describes t lib (block_place height block.n_time category) db apis block.vtx
    → All (IsSerialized wire) block.vtx
    → extract_inputs_from_block t lib db block height category ≡ ok (inputs, db')
    → extract_inputs_from_api_block lib wire height block.n_time apis category ≡ ok inputs
unfolding extract_inputs_from_block extract_inputs_from_api_block
extract_inputs_from_api_block-extract_inputs_from_block t lib wire db block apis height category
      inputs db' d wires h =
    api_txs-extract_txs t lib wire (block_place height block.n_time category) db apis block.vtx
      inputs db' d wires h
