-- ===== src/Blockchain/VerifyBlock/Accepts.antt =====
-- What a block without errors says of its inputs.
use bitcoin_script.Prelude.{
  ℕ, ◌+◌, ◌≡◌, ◌≢◌, refl, sym, ap, ◌∙◌, Bool, true, false, Option, none, some, List, [], ◌∷◌, ◌++◌,
  map, Bytes, ◌==◌, ◌&&◌, ltb, length, if◌then◌else◌, ◌⊎◌, Option-cases, inl, inr,
}
use mathlib.Core.Path.{subst}
use bitcoin_script.Errors.{Result, ok, err, err≢ok, ok-inj}
use bitcoin_script.Blockchain.Flags.{flags_for_block}
use bitcoin_script.Blockchain.Transaction.{TxIn, Transaction, Block}
use bitcoin_script.Blockchain.Sighash.{Signatures}
use bitcoin_script.Blockchain.Utxo.{Row, Table, IsTable, get}
use bitcoin_script.Blockchain.Tasks.{
  Task, Report, Problem, Collected, Judge, prevouts_blob, make_task, run_tasks, judged, report,
  with_report, with_task,
}
use bitcoin_script.Blockchain.VerifyBlock.{
  BlockResult, verify_block_inner, fetch, collect, verify_txs, Progress,
}
use bitcoin_script.Blockchain.VerifyBlock.View.{View, after_tx}
use bitcoin_script.Blockchain.VerifyBlock.Steps.{
  inputs_of, verify_inputs_parts, verify_tx_parts, verify_txs_parts, verify_block_inner_parts,
}
use bitcoin_script.Blockchain.VerifyBlock.Refines.{select-verify_tx}

-- A task is judged without an error: by the process itself or, where there is a pool, by a worker.
abbrev pub Passes : {Msg : Type 0} → Judge Msg → Task → Type 0
Passes judge task = (judge.own task ≡ none) ⊎ ((judge.has_pool ≡ true) × (judge.worker task ≡ none))

-- The input's outpoint is in the UTXO set, and the task that is made of it is judged without an error.
abbrev pub AcceptsInput :
    {Msg : Type 0}
    → Signatures
    → Judge Msg
    → ℕ
    → View
    → Transaction
    → ℕ
    → Option Bytes
    → ℕ
    → TxIn
    → Type 0
AcceptsInput lib judge flags view tx tx_idx prevouts input_index vin =
    (row : Row) × (task : Task) × (view vin.prevout_hash vin.prevout_n ≡ some row)
    × (make_task lib tx tx_idx input_index vin flags row prevouts ≡ ok task)
    × Passes judge task

abbrev pub AcceptsInputs :
    {Msg : Type 0}
    → Signatures
    → Judge Msg
    → ℕ
    → View
    → Transaction
    → ℕ
    → Option Bytes
    → ℕ
    → List TxIn
    → Type 0
AcceptsInputs lib judge flags view tx tx_idx prevouts input_index [] = Unit {0}
AcceptsInputs lib judge flags view tx tx_idx prevouts input_index (vin ∷ vins) =
    AcceptsInput lib judge flags view tx tx_idx prevouts input_index vin
    × AcceptsInputs lib judge flags view tx tx_idx prevouts (input_index + 1) vins

abbrev pub found_in : View → TxIn → Option Row
found_in view vin = view vin.prevout_hash vin.prevout_n

abbrev pub AcceptsTx :
    {Msg : Type 0} → Signatures → Judge Msg → ℕ → Bool → View → Transaction → ℕ → Type 0
AcceptsTx lib judge flags true view tx tx_idx = Unit {0}
AcceptsTx lib judge flags false view tx tx_idx =
    AcceptsInputs lib judge flags view tx tx_idx (prevouts_blob (map (found_in view) tx.vin)) 0
      tx.vin

-- Each transaction on the UTXO set that those before it make.
abbrev pub AcceptsTxs :
    {Msg : Type 0} → Signatures → Judge Msg → ℕ → View → ℕ → List Transaction → Type 0
AcceptsTxs lib judge flags view tx_idx [] = Unit {0}
AcceptsTxs lib judge flags view tx_idx (tx ∷ txs) =
    AcceptsTx lib judge flags (tx_idx == 0) view tx tx_idx
    × AcceptsTxs lib judge flags (after_tx view tx_idx tx) (tx_idx + 1) txs

append_nil_left {ℓ} : {A : Type ℓ} (xs ys : List A) → xs ++ ys ≡ [] → xs ≡ []
append_nil_left [] ys h = refl
append_nil_left (x ∷ xs) ys h = absurd (cc h)

append_nil_right {ℓ} : {A : Type ℓ} (xs ys : List A) → xs ++ ys ≡ [] → ys ≡ []
append_nil_right [] ys h = h
append_nil_right (x ∷ xs) ys h = absurd (cc h)

report-nil : {Msg : Type 0} (task : Task) (o : Option Msg) → report task o ≡ [] → o ≡ none
report-nil task none h = refl
report-nil task (some msg) h = absurd (cc h)

with_report-errors :
    {Msg : Type 0} (r : Report Msg) (rest : Result (Collected Msg)) (c : Collected Msg)
    → with_report r rest ≡ ok c
    → c.reports ≢ []
with_report-errors {Msg = Msg} r (ok d) c h n =
    absurd (cc (ap (λ (s : Collected Msg). s.reports) (ok-inj h), n))
with_report-errors r (err e) c h n = absurd (err≢ok h)

pub with_task_parts :
    {Msg : Type 0} (made : Result Task) (rest : Result (Collected Msg)) (c : Collected Msg)
    → with_task made rest ≡ ok c
    → (task : Task) × (d : Collected Msg) × (made ≡ ok task)
      × (rest ≡ ok d)
      × (d.reports ≡ c.reports)
      × (task ∷ d.tasks ≡ c.tasks)
with_task_parts {Msg = Msg} (ok task) (ok d) c h = (
  task,
  d,
  refl,
  refl,
  ap (λ (s : Collected Msg). s.reports) (ok-inj h),
  ap (λ (s : Collected Msg). s.tasks) (ok-inj h),
)
with_task_parts (ok task) (err e) c h = absurd (err≢ok h)
with_task_parts (err e) rest c h = absurd (err≢ok h)

module _ {Db Msg : Type 0} (t : Table Db) (lib : Signatures) (flags : ℕ) (db : Db)
    (tx : Transaction) (tx_idx : ℕ) (prevouts : Option Bytes) (input_index : ℕ) (vin : TxIn)
    (vins : List TxIn) where
  pub collect_missing :
      t.select db vin.prevout_hash vin.prevout_n ≡ none
      → collect t {Msg = Msg} lib flags db tx tx_idx prevouts input_index (vin ∷ vins)
        ≡ with_report
            (record {
              tx_idx = tx_idx;
              input_index = input_index;
              problem = Problem.utxo_not_found vin.prevout_hash vin.prevout_n;
            })
            (collect t lib flags db tx tx_idx prevouts (input_index + 1) vins)
  unfolding fetch get collect
  collect_missing e = rw (collect, e) refl

  pub collect_found :
      (row : Row)
      → t.select db vin.prevout_hash vin.prevout_n ≡ some row
      → collect t {Msg = Msg} lib flags db tx tx_idx prevouts input_index (vin ∷ vins)
        ≡ with_task
            (make_task lib tx tx_idx input_index vin flags row prevouts)
            (collect t lib flags db tx tx_idx prevouts (input_index + 1) vins)
  unfolding fetch get collect
  collect_found row e = rw (collect, e) refl

-- A task that is judged without an error, before others that are.
judged_parts :
    {Msg : Type 0} (check : Task → Option Msg) (task : Task) (tasks : List Task)
    → judged check (task ∷ tasks) ≡ []
    → (check task ≡ none) × (judged check tasks ≡ [])
unfolding judged
judged_parts check task tasks h = (
  report-nil task (check task) (append_nil_left (report task (check task)) (judged check tasks) h),
  append_nil_right (report task (check task)) (judged check tasks) h,
)

-- The tasks are all judged by one of the two, without an error.
run_tasks-Passes :
    {Msg : Type 0} (judge : Judge Msg) (tasks : List Task)
    → run_tasks judge tasks ≡ []
    → (check : (Task → Option Msg)) × ((task : Task) → check task ≡ none → Passes judge task)
      × (judged check tasks ≡ [])
unfolding run_tasks
run_tasks-Passes {Msg = Msg} judge tasks h = by_pool judge.has_pool (ltb 1 (length tasks)) refl h
  where
    by_pool :
        (pool many : Bool)
        → judge.has_pool ≡ pool
        → (if pool && many then judged judge.worker tasks else judged judge.own tasks) ≡ []
        → (check : (Task → Option Msg)) × ((task : Task) → check task ≡ none → Passes judge task)
          × (judged check tasks ≡ [])
    by_pool true true e h = (judge.worker, λ task none_found. inr (e, none_found), h)
    by_pool true false e h = (judge.own, λ task none_found. inl none_found, h)
    by_pool false many e h = (judge.own, λ task none_found. inl none_found, h)

module _ {Db Msg : Type 0} (t : Table Db) (lib : Signatures) (judge : Judge Msg) (flags : ℕ) where
  collect-AcceptsInputs :
      (db : Db) (tx : Transaction) (tx_idx : ℕ) (prevouts : Option Bytes) (input_index : ℕ)
      (vins : List TxIn) (c : Collected Msg) (check : Task → Option Msg)
      → ((task : Task) → check task ≡ none → Passes judge task)
      → collect t lib flags db tx tx_idx prevouts input_index vins ≡ ok c
      → c.reports ≡ []
      → judged check c.tasks ≡ []
      → AcceptsInputs lib judge flags (t.select db) tx tx_idx prevouts input_index vins
  collect-AcceptsInputs db tx tx_idx prevouts input_index [] c check passes h n j = tt
  collect-AcceptsInputs db tx tx_idx prevouts input_index (vin ∷ vins) c check passes h n j =
      let rest = collect t {Msg = Msg} lib flags db tx tx_idx prevouts (input_index + 1) vins in
      elim (Option-cases (t.select db vin.prevout_hash vin.prevout_n)) [
        | inl e ↦ absurd (
            with_report-errors _ rest c
              (sym (collect_missing t lib flags db tx tx_idx prevouts input_index vin vins e) ∙ h)
              n)
        | inr (row, e) ↦
            let (task, d, made, others, reports, tasks) =
              with_task_parts (make_task lib tx tx_idx input_index vin flags row prevouts) rest c (
                sym (collect_found t lib flags db tx tx_idx prevouts input_index vin vins row e)
                ∙ h) in
            let (accepted, j') = judged_parts check task d.tasks (ap (judged check) tasks ∙ j) in
            (
              (row, task, e, made, passes task accepted),
              collect-AcceptsInputs db tx tx_idx prevouts (input_index + 1) vins d check passes
                  others (reports ∙ n) j',
            )
      ]

  module _ (laws : IsTable t) (height : ℕ) where
    inputs_of-AcceptsTx :
        (is_coinbase : Bool) (db : Db) (tx : Transaction) (tx_idx : ℕ) (p : Progress Msg Db)
        → inputs_of t lib judge height flags is_coinbase db tx tx_idx ≡ ok p
        → p.errors ≡ []
        → AcceptsTx lib judge flags is_coinbase (t.select db) tx tx_idx
    unfolding inputs_of fetch get
    inputs_of-AcceptsTx true db tx tx_idx p h n = tt
    inputs_of-AcceptsTx false db tx tx_idx p h n =
        let (c, collected, errors, _) =
          verify_inputs_parts t lib judge height flags db tx tx_idx p h in
        let (check, passes, clean) =
          run_tasks-Passes judge c.tasks
            (append_nil_right c.reports (run_tasks judge c.tasks) (errors ∙ n)) in
        collect-AcceptsInputs db tx tx_idx (prevouts_blob (map (found_in (t.select db)) tx.vin)) 0
          tx.vin c check passes collected
          (append_nil_left c.reports (run_tasks judge c.tasks) (errors ∙ n)) clean

    verify_txs-AcceptsTxs :
        (db : Db) (tx_idx : ℕ) (txs : List Transaction) (p : Progress Msg Db)
        → verify_txs t lib judge height flags db tx_idx txs ≡ ok p
        → p.errors ≡ []
        → AcceptsTxs lib judge flags (t.select db) tx_idx txs
    verify_txs-AcceptsTxs db tx_idx [] p h n = tt
    verify_txs-AcceptsTxs db tx_idx (tx ∷ txs) p h n =
        let (q, q', first, others, _, errors) =
          verify_txs_parts t lib judge height flags db tx_idx tx txs p h in
        let (r, inputs, _, same) = verify_tx_parts t lib judge height flags db tx tx_idx q first in
        let rest =
          verify_txs-AcceptsTxs q.db (tx_idx + 1) txs q' others
            (append_nil_right q.errors q'.errors (errors ∙ n)) in
        (
          inputs_of-AcceptsTx (tx_idx == 0) db tx tx_idx r inputs
              (same ∙ append_nil_left q.errors q'.errors (errors ∙ n)),
          subst (λ (view : View). AcceptsTxs lib judge flags view (tx_idx + 1) txs)
              (select-verify_tx t laws lib judge height flags db tx tx_idx q first) rest,
        )

-- A block that is verified without an exception and without an error is accepted by the UTXO set
-- alone, transaction by transaction, each on the set that those before it make: every input of every
-- transaction but the first names an outpoint that is there, and the task that is made of it (with the
-- row at that outpoint, the prevouts of its transaction and the flags of the block) is judged without
-- an error by the process itself or, where there is a process pool, by a worker.
pub verify_block_inner-AcceptsTxs :
    {Db Msg : Type 0} (t : Table Db) (lib : Signatures) (judge : Judge Msg) (db : Db)
    (block : Block) (height : ℕ) (r : BlockResult Msg) (db' : Db)
    → IsTable t
    → verify_block_inner t lib judge db block height ≡ ok (r, db')
    → r.errors ≡ []
    → AcceptsTxs lib judge (flags_for_block height block.n_time) (t.select db) 0 block.vtx
verify_block_inner-AcceptsTxs t lib judge db block height r db' laws h n =
    let (p, done, errors, _) = verify_block_inner_parts t lib judge db block height r db' h in
    verify_txs-AcceptsTxs t lib judge (flags_for_block height block.n_time) laws height db 0
      block.vtx p done (errors ∙ n)
