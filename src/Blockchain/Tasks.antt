-- ===== src/Blockchain/Tasks.antt =====
-- The tasks that `_verify_block_inner` (blockchain/verifier.py) makes of the inputs of a transaction,
-- and how they are run, in the process itself or by `_verify_input_worker` in a pool.
use bitcoin_script.Prelude.{
  ℕ, Bool, ◌&&◌, Option, none, some, List, [], ◌∷◌, ◌++◌, Bytes, length, if◌then◌else◌, ltb,
}
use bitcoin_script.Prelude.Int.{ℤ, pos, negsuc}
use bitcoin_script.Prelude.Little.{to_bytes_le}
use bitcoin_script.Errors.{Error, Result, ok, err}
use bitcoin_script.ScriptUtils.Codec.{encode_witness_blob}
use bitcoin_script.Blockchain.Transaction.{TxIn, Transaction}
use bitcoin_script.Blockchain.Pack.{both, sized}
use bitcoin_script.Blockchain.Sighash.{Signatures, compute_sighash_blob, witness_items}
use bitcoin_script.Blockchain.Utxo.{Row}

-- The arguments of `verify_script`.
pub record Task : Type 0 where
  pub tx_idx : ℕ
  pub input_index : ℕ
  pub script_sig : Bytes
  pub script_pubkey : Bytes
  pub sighash : Bytes
  pub witness : Bytes
  pub flags : ℕ
  pub tx_version : ℤ
  pub n_locktime : ℕ
  pub n_sequence : ℕ
  pub tx : Bytes
  pub amount : ℤ
  pub prevouts : Bytes

-- An error string of the block, as its parts.
pub data Problem (Msg : Type 0) : Type 0 where
  utxo_not_found : Bytes → ℕ → Problem Msg
  script_failed : Msg → Problem Msg

pub record Report (Msg : Type 0) : Type 0 where
  pub tx_idx : ℕ
  pub input_index : ℕ
  pub problem : Problem Msg

-- What judges a task: no message where it succeeds. `worker` is the instance of a worker process.
pub record Judge (Msg : Type 0) : Type 0 where
  pub own : Task → Option Msg
  pub worker : Task → Option Msg
  pub has_pool : Bool

-- `amt.to_bytes(8, "little")`
unfoldable pub pack_amount : ℤ → Option Bytes
pack_amount (pos n) = to_bytes_le 8 n
pack_amount (negsuc n) = none

-- `all_prevouts`, if all of them are there.
unfoldable pub all_found : List (Option Row) → Option (List Row)
all_found [] = some []
all_found (none ∷ rows) = none
all_found (some row ∷ rows) = elim (all_found rows) [
  | none ↦ none
  | some found ↦ some (row ∷ found)
]

unfoldable pub pack_prevouts : List Row → Option Bytes
pack_prevouts [] = some []
pack_prevouts ((script, amount) ∷ rows) =
    both (both (pack_amount amount) (sized script)) (pack_prevouts rows)

unfoldable pub prevouts_blob : List (Option Row) → Option Bytes
prevouts_blob rows = elim (all_found rows) [ none ↦ some [] | some found ↦ pack_prevouts found ]

-- `encode_witness_blob(witness_items) if witness_items else b""`
unfoldable pub witness_blob : List Bytes → Option Bytes
witness_blob [] = some []
witness_blob (item ∷ items) = encode_witness_blob (item ∷ items)

-- The errors and the tasks of a transaction.
pub record Collected (Msg : Type 0) : Type 0 where
  pub reports : List (Report Msg)
  pub tasks : List Task

abbrev pub nothing : {Msg : Type 0} → Collected Msg
nothing = record { reports = []; tasks = [] }

abbrev pub with_report :
    {Msg : Type 0} → Report Msg → Result (Collected Msg) → Result (Collected Msg)
with_report r (err e) = err e
with_report r (ok c) = ok (record c { reports = r ∷ c.reports })

abbrev pub with_task :
    {Msg : Type 0} → Result Task → Result (Collected Msg) → Result (Collected Msg)
with_task (err e) c = err e
with_task (ok task) (err e) = err e
with_task (ok task) (ok c) = ok (record c { tasks = task ∷ c.tasks })

abbrev pub report : {Msg : Type 0} → Task → Option Msg → List (Report Msg)
report task none = []
report task (some msg) =
    record { tx_idx = task.tx_idx; input_index = task.input_index; problem = script_failed msg }
    ∷ []

-- The errors of the tasks, in order, by an instance.
unfoldable pub judged : {Msg : Type 0} → (Task → Option Msg) → List Task → List (Report Msg)
judged check [] = []
judged check (task ∷ tasks) = report task (check task) ++ judged check tasks

-- `if self._pool is not None and len(tasks) > 1`
unfoldable pub run_tasks : {Msg : Type 0} → Judge Msg → List Task → List (Report Msg)
run_tasks judge tasks =
    if judge.has_pool && ltb 1 (length tasks)
    then judged judge.worker tasks
    else judged judge.own tasks

unfoldable pub make_task :
    Signatures → Transaction → ℕ → ℕ → TxIn → ℕ → Row → Option Bytes → Result Task
make_task lib tx tx_idx input_index vin flags (script_pubkey, amount) none = err Error.library_error
make_task lib tx tx_idx input_index vin flags (script_pubkey, amount) (some prevouts) =
    elim (witness_blob (witness_items tx input_index)) [
      | none ↦ err Error.library_error
      | some witness ↦ elim (compute_sighash_blob lib tx input_index vin script_pubkey none) [
        | err e ↦ err e
        | ok sighash ↦ ok (record {
          tx_idx = tx_idx;
          input_index = input_index;
          script_sig = vin.script_sig;
          script_pubkey = script_pubkey;
          sighash = sighash;
          witness = witness;
          flags = flags;
          tx_version = tx.n_version;
          n_locktime = tx.n_lock_time;
          n_sequence = vin.n_sequence;
          tx = tx.serialized;
          amount = amount;
          prevouts = prevouts;
        })
      ]
    ]
