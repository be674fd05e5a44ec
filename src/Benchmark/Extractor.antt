-- ===== src/Benchmark/Extractor.antt =====
-- benchmark/extractor.py: the inputs of a block as records of the benchmark, and `_verify_with_k` of
-- benchmark/runner.py, which hands such a record to the K semantics. The log is not modelled.
pub mod SameUtxo
pub mod SameTask
use bitcoin_script.Prelude.{
  ℕ, ◌+◌, Bool, true, false, Option, none, some, List, [], ◌∷◌, ◌++◌, map, Bytes, length,
  if◌then◌else◌, ◌==◌, leb,
}
use bitcoin_script.Prelude.Int.{ℤ}
use bitcoin_script.Prelude.Little.{to_bytes_le}
use bitcoin_script.Prelude.Text.{Text}
use bitcoin_script.Errors.{Error, Result, ok, err}
use bitcoin_script.Blockchain.Flags.{flags_for_block}
use bitcoin_script.Blockchain.Transaction.{TxIn, Transaction, Block}
use bitcoin_script.Blockchain.Pack.{both, prefixed}
use bitcoin_script.Blockchain.Sighash.{Signatures, compute_sighash_blob, witness_items}
use bitcoin_script.Blockchain.Utxo.{Row, Table}
use bitcoin_script.Blockchain.Tasks.{Task, all_found, pack_amount, witness_blob}
use bitcoin_script.Blockchain.VerifyBlock.{fetch, spend_inputs, add_outputs}
use bitcoin_script.Benchmark.{BenchmarkInput, classify_era}

-- `all_prevout_spks` and `all_prevout_amounts`, if `all_resolved`.
abbrev pub columns : Option (List Row) → Option (List Bytes × List ℤ)
columns none = none
columns (some rows) = some (map (λ (r : Row). r.0) rows, map (λ (r : Row). r.1) rows)

abbrev pub scripts_of : Option (List Bytes × List ℤ) → Option (List Bytes)
scripts_of none = none
scripts_of (some (scripts, amounts)) = some scripts

abbrev pub amounts_of : Option (List Bytes × List ℤ) → Option (List ℤ)
amounts_of none = none
amounts_of (some (scripts, amounts)) = some amounts

-- Where the inputs of a transaction stand: the block, its flags and the category.
pub record Place : Type 0 where
  pub height : ℕ
  pub flags : ℕ
  pub category : Text
  pub tx_idx : ℕ

abbrev pub input_of :
    Place → Transaction → Option (List Bytes × List ℤ) → ℕ → TxIn → Row → Bytes → BenchmarkInput
input_of place tx prevouts input_index vin (script_pubkey, amount) sighash_blob = record {
  block_height = place.height;
  tx_index = place.tx_idx;
  input_index = input_index;
  txid = tx.txid;
  era = classify_era place.height;
  category = place.category;
  script_pubkey = script_pubkey;
  script_sig = vin.script_sig;
  amount = amount;
  flags = place.flags;
  witness = witness_items tx input_index;
  tx_serialized = tx.serialized;
  n_in = input_index;
  sighash_blob = sighash_blob;
  tx_version = tx.n_version;
  n_locktime = tx.n_lock_time;
  n_sequence = vin.n_sequence;
  all_prevout_scriptpubkeys = scripts_of prevouts;
  all_prevout_amounts = amounts_of prevouts;
}

-- One round of the loop over the inputs, where the output that is spent is found.
unfoldable pub make_input :
    Signatures
    → Place
    → Transaction
    → Option (List Bytes × List ℤ)
    → ℕ
    → TxIn
    → Row
    → Result BenchmarkInput
make_input lib place tx prevouts input_index vin row =
    elim (compute_sighash_blob lib tx input_index vin row.0 prevouts) [
      | err e ↦ err e
      | ok sighash_blob ↦ ok (input_of place tx prevouts input_index vin row sighash_blob)
    ]

abbrev pub with_input :
    Result BenchmarkInput → Result (List BenchmarkInput) → Result (List BenchmarkInput)
with_input (err e) rest = err e
with_input (ok inp) (err e) = err e
with_input (ok inp) (ok inputs) = ok (inp ∷ inputs)

-- The inputs of a transaction, and those of a block, with the database behind them.
abbrev pub with_inputs :
    {Db : Type 0}
    → List BenchmarkInput
    → Result (List BenchmarkInput × Db)
    → Result (List BenchmarkInput × Db)
with_inputs inputs (err e) = err e
with_inputs inputs (ok (more, db)) = ok (inputs ++ more, db)

-- `_cs`
unfoldable pub cs : ℕ → Option Bytes
cs n =
    if leb n 252
    then to_bytes_le 1 n
    else (if leb n 0xFFFF
        then prefixed (0xfd ∷ []) (to_bytes_le 2 n)
        else (if leb n 0xFFFFFFFF
            then prefixed (0xfe ∷ []) (to_bytes_le 4 n)
            else prefixed (0xff ∷ []) (to_bytes_le 8 n)))

-- The loop of `_build_prevouts_blob`, whose `zip` is strict.
unfoldable pub join_prevouts : List Bytes → List ℤ → Option Bytes
join_prevouts [] [] = some []
join_prevouts [] (amt ∷ amounts) = none
join_prevouts (spk ∷ spks) [] = none
join_prevouts (spk ∷ spks) (amt ∷ amounts) =
    both (both (pack_amount amt) (both (cs (length spk)) (some spk))) (join_prevouts spks amounts)

unfoldable pub build_prevouts_blob : Option (List Bytes) → Option (List ℤ) → Option Bytes
build_prevouts_blob none amounts = some []
build_prevouts_blob (some spks) none = some []
build_prevouts_blob (some spks) (some amounts) = join_prevouts spks amounts

-- The arguments with which `_verify_with_k` calls `verify_script`, with the blobs that it makes.
abbrev pub with_blobs : BenchmarkInput → Option Bytes → Option Bytes → Result Task
with_blobs inp none prevouts = err Error.library_error
with_blobs inp (some witness) none = err Error.library_error
with_blobs inp (some witness) (some prevouts) = ok (record {
  tx_idx = inp.tx_index;
  input_index = inp.input_index;
  script_sig = inp.script_sig;
  script_pubkey = inp.script_pubkey;
  sighash = inp.sighash_blob;
  witness = witness;
  flags = inp.flags;
  tx_version = inp.tx_version;
  n_locktime = inp.n_locktime;
  n_sequence = inp.n_sequence;
  tx = inp.tx_serialized;
  amount = inp.amount;
  prevouts = prevouts;
})

unfoldable pub verify_with_k_task : BenchmarkInput → Result Task
verify_with_k_task inp =
    with_blobs inp (witness_blob inp.witness)
      (build_prevouts_blob inp.all_prevout_scriptpubkeys inp.all_prevout_amounts)

module _ {Db : Type 0} (t : Table Db) (lib : Signatures) where
  unfoldable pub extract_vins :
      Place
      → Db
      → Transaction
      → Option (List Bytes × List ℤ)
      → ℕ
      → List TxIn
      → Result (List BenchmarkInput)
  extract_vins place db tx prevouts input_index [] = ok []
  extract_vins place db tx prevouts input_index (vin ∷ vins) =
      let rest = extract_vins place db tx prevouts (input_index + 1) vins in
      elim (fetch t db vin) [
        | none ↦ rest
        | some row ↦ with_input (make_input lib place tx prevouts input_index vin row) rest
      ]

  -- `if not is_coinbase`: the inputs, and the database without the outputs that they spend.
  unfoldable pub extract_spends : Place → Db → Transaction → Result (List BenchmarkInput × Db)
  extract_spends place db tx =
      elim (extract_vins place db tx (columns (all_found (map (fetch t db) tx.vin))) 0 tx.vin) [
        | err e ↦ err e
        | ok inputs ↦ ok (inputs, spend_inputs t db tx.vin)
      ]

  unfoldable pub extract_tx : Place → Db → Transaction → Result (List BenchmarkInput × Db)
  extract_tx place db tx =
      elim (if place.tx_idx == 0 then ok ([], db) else extract_spends place db tx) [
        | err e ↦ err e
        | ok (inputs, db') ↦ elim (add_outputs t place.height db' tx.txid 0 tx.vout) [
          | err e ↦ err e
          | ok db'' ↦ ok (inputs, db'')
        ]
      ]

  unfoldable pub extract_txs : Place → Db → List Transaction → Result (List BenchmarkInput × Db)
  extract_txs place db [] = ok ([], db)
  extract_txs place db (tx ∷ txs) = elim (extract_tx place db tx) [
    | err e ↦ err e
    | ok (inputs, db') ↦
        with_inputs inputs (extract_txs (record place { tx_idx = place.tx_idx + 1 }) db' txs)
  ]

  unfoldable pub extract_inputs_from_block :
      Db → Block → ℕ → Text → Result (List BenchmarkInput × Db)
  extract_inputs_from_block db block height category =
      extract_txs
        (record {
          height = height;
          flags = flags_for_block height block.n_time;
          category = category;
          tx_idx = 0;
        })
        db block.vtx

module _ {Db : Type 0} (t : Table Db) (height : ℕ) where
  unfoldable pub update_tx : ℕ → Db → Transaction → Result Db
  update_tx tx_idx db tx =
      add_outputs t height (if tx_idx == 0 then db else spend_inputs t db tx.vin) tx.txid 0 tx.vout

  unfoldable pub update_txs : ℕ → Db → List Transaction → Result Db
  update_txs tx_idx db [] = ok db
  update_txs tx_idx db (tx ∷ txs) = elim (update_tx tx_idx db tx) [
    | err e ↦ err e
    | ok db' ↦ update_txs (tx_idx + 1) db' txs
  ]

unfoldable pub update_utxo_only : {Db : Type 0} → Table Db → Db → Block → ℕ → Result Db
update_utxo_only t db block height = update_txs t height 0 db block.vtx
