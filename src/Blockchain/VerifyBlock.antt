-- ===== src/Blockchain/VerifyBlock.antt =====
-- `_verify_block_inner` of class ChainVerifier (blockchain/verifier.py). The K semantics that judges one
-- input is a parameter, and so are SHA-256, SignatureHash and SQLite. An exception leaves the block
-- unfinished, and the state behind it is not modelled; neither are the clock and the log.
pub mod View
pub mod Store
pub mod Steps
pub mod Refines
pub mod Pool
pub mod Accepts
use bitcoin_script.Prelude.{
  ℕ, zero, suc, ◌+◌, Bool, true, false, ◌&&◌, ◌||◌, Option, none, some, List, [], ◌∷◌, ◌++◌, map,
  Bytes, length, if◌then◌else◌, ◌==◌, leb, ltb,
}
use bitcoin_script.Prelude.Int.{ℤ, pos, negsuc}
use bitcoin_script.Prelude.Little.{to_bytes_le}
use bitcoin_script.Errors.{Error, Result, ok, err}
use bitcoin_script.ScriptUtils.Codec.{encode_witness_blob}
use bitcoin_script.Blockchain.Flags.{flags_for_block}
use bitcoin_script.Blockchain.Transaction.{TxIn, TxOut, Transaction, Block}
use bitcoin_script.Blockchain.Pack.{both, sized}
use bitcoin_script.Blockchain.Sighash.{Signatures, compute_sighash_blob, witness_items}
use bitcoin_script.Blockchain.Utxo.{Row, Table, get, spend, add, set_checkpoint_height}
use bitcoin_script.Blockchain.Tasks.{
  Collected, Judge, Problem, Report, Task, all_found, judged, make_task, nothing, pack_amount,
  pack_prevouts, prevouts_blob, report, run_tasks, with_report, with_task, witness_blob,
}

-- What a block leaves behind: its errors, the number of inputs that were judged, and the database.
pub record Progress (Msg Db : Type 0) : Type 0 where
  pub errors : List (Report Msg)
  pub input_count : ℕ
  pub db : Db

-- The blocks whose coinbase repeats a txid.
abbrev pub bip30 : ℕ → Bool
bip30 height = (height == 91842) || (height == 91880)

abbrev pub no_inputs : {Msg Db : Type 0} → Db → Result (Progress Msg Db)
no_inputs db = ok (record { errors = []; input_count = 0; db = db })

abbrev pub after :
    {Msg Db : Type 0} → Progress Msg Db → Result (Progress Msg Db) → Result (Progress Msg Db)
after p (err e) = err e
after p (ok q) = ok (record {
  errors = p.errors ++ q.errors;
  input_count = p.input_count + q.input_count;
  db = q.db;
})

module _ {Db : Type 0} (t : Table Db) where
  unfoldable pub fetch : Db → TxIn → Option Row
  fetch db vin = get t db vin.prevout_hash vin.prevout_n

  -- The loop over the inputs that makes the tasks.
  unfoldable pub collect :
      {Msg : Type 0}
      → Signatures
      → ℕ
      → Db
      → Transaction
      → ℕ
      → Option Bytes
      → ℕ
      → List TxIn
      → Result (Collected Msg)
  collect lib flags db tx tx_idx prevouts input_index [] = ok nothing
  collect lib flags db tx tx_idx prevouts input_index (vin ∷ vins) =
      let rest = collect lib flags db tx tx_idx prevouts (input_index + 1) vins in
      elim (fetch db vin) [
        | none ↦
            with_report
              (record {
                tx_idx = tx_idx;
                input_index = input_index;
                problem = Problem.utxo_not_found vin.prevout_hash vin.prevout_n;
              })
              rest
        | some row ↦ with_task (make_task lib tx tx_idx input_index vin flags row prevouts) rest
      ]

  -- A KeyError of `spend` is passed over.
  unfoldable pub spend_inputs : Db → List TxIn → Db
  spend_inputs db [] = db
  spend_inputs db (vin ∷ vins) = spend_inputs ((spend t db vin.prevout_hash vin.prevout_n).1) vins

  unfoldable pub add_outputs : ℕ → Db → Bytes → ℕ → List TxOut → Result Db
  add_outputs height db txid vout_idx [] = ok db
  add_outputs height db txid vout_idx (out ∷ outs) =
      elim (add t db txid vout_idx out.script_pubkey out.n_value (bip30 height)) [
        | err e ↦ err e
        | ok db' ↦ add_outputs height db' txid (vout_idx + 1) outs
      ]

module _ {Db Msg : Type 0} (t : Table Db) (lib : Signatures) (judge : Judge Msg)
    (height flags : ℕ) where
  -- The inputs of a transaction that is no coinbase.
  unfoldable pub verify_inputs : Db → Transaction → ℕ → Result (Progress Msg Db)
  verify_inputs db tx tx_idx =
      elim (collect t lib flags db tx tx_idx (prevouts_blob (map (fetch t db) tx.vin)) 0 tx.vin) [
        | err e ↦ err e
        | ok c ↦ ok (record {
          errors = c.reports ++ run_tasks judge c.tasks;
          input_count = length c.tasks;
          db = spend_inputs t db tx.vin;
        })
      ]

  -- One round of the loop over the transactions.
  unfoldable pub verify_tx : Db → Transaction → ℕ → Result (Progress Msg Db)
  verify_tx db tx tx_idx = elim (if tx_idx == 0 then no_inputs db else verify_inputs db tx tx_idx) [
    | err e ↦ err e
    | ok p ↦ elim (add_outputs t height p.db tx.txid 0 tx.vout) [
      | err e ↦ err e
      | ok db' ↦ ok (record p { db = db' })
    ]
  ]

  unfoldable pub verify_txs : Db → ℕ → List Transaction → Result (Progress Msg Db)
  verify_txs db tx_idx [] = no_inputs db
  verify_txs db tx_idx (tx ∷ txs) = elim (verify_tx db tx tx_idx) [
    | err e ↦ err e
    | ok p ↦ after p (verify_txs p.db (tx_idx + 1) txs)
  ]

-- BlockResult, without the time.
pub record BlockResult (Msg : Type 0) : Type 0 where
  pub height : ℕ
  pub tx_count : ℕ
  pub input_count : ℕ
  pub errors : List (Report Msg)

-- `ok`
abbrev pub is_ok : {Msg : Type 0} → BlockResult Msg → Bool
is_ok r = length r.errors == 0

unfoldable pub verify_block_inner :
    {Db Msg : Type 0}
    → Table Db
    → Signatures
    → Judge Msg
    → Db
    → Block
    → ℕ
    → Result (BlockResult Msg × Db)
verify_block_inner t lib judge db block height =
    elim (verify_txs t lib judge height (flags_for_block height block.n_time) db 0 block.vtx) [
      | err e ↦ err e
      | ok p ↦ ok (
        record {
          height = height;
          tx_count = length block.vtx;
          input_count = p.input_count;
          errors = p.errors;
        },
        set_checkpoint_height t p.db (pos height),
      )
    ]
