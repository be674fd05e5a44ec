-- ===== src/KSemantics/Judging.antt =====
-- The K semantics as what judges the tasks of a block: the two branches of `_verify_block_inner`
-- (blockchain/verifier.py), in the process itself and in `_verify_input_worker`.
use bitcoin_script.Prelude.{
  ℕ, ◌≤◌, ◌≡◌, refl, ap, ◌∙◌, Bool, true, false, Option, none, some, List, [], ◌∷◌, ◌++◌, length,
  ltb, arith,
}
use bitcoin_script.Prelude.Text.{Text}
use bitcoin_script.Errors.{ok}
use bitcoin_script.Blockchain.Tasks.{
  Task, Problem, utxo_not_found, script_failed, Report, Judge, report, judged, run_tasks,
}
use bitcoin_script.Blockchain.VerifyBlock.Pool.{Agrees, verify_block_inner-without_pool}
use bitcoin_script.Blockchain.VerifyBlock.{verify_block_inner}
use bitcoin_script.Blockchain.Transaction.{Block}
use bitcoin_script.Blockchain.Sighash.{Signatures}
use bitcoin_script.Blockchain.Utxo.{Table}
use bitcoin_script.KSemantics.{Pattern, Value, verify_script, success, error}

-- Every run can be read: `success` raises no exception.
abbrev pub IsReadable : (List (Text × Value) → Pattern) → Type 0
IsReadable run_binary =
    (task : Task) → (b : Bool) × (success (verify_script run_binary task) ≡ ok b)

-- The error of a task in the sequential branch: `None` is an error there, too.
abbrev pub own_error : Bool → Option Text → Option (Option Text)
own_error true code = none
own_error false code = some code

-- What the worker returns, as the branch of the pool reads it: `if err is not None`.
abbrev pub worker_error : Bool → Option Text → Option (Option Text)
worker_error true code = none
worker_error false none = none
worker_error false (some code) = some (some code)

unfoldable pub k_judge :
    (run_binary : List (Text × Value) → Pattern)
    → IsReadable run_binary
    → Bool
    → Judge (Option Text)
k_judge run_binary readable has_pool = record {
  own = λ task. own_error (readable task).0 (error (verify_script run_binary task));
  worker = λ task. worker_error (readable task).0 (error (verify_script run_binary task));
  has_pool = has_pool;
}

-- The reports with an error code.
abbrev pub keep_code : Report (Option Text) → Problem (Option Text) → List (Report (Option Text))
keep_code r (utxo_not_found txid vout) = r ∷ []
keep_code r (script_failed none) = []
keep_code r (script_failed (some code)) = r ∷ []

unfoldable pub with_code : List (Report (Option Text)) → List (Report (Option Text))
with_code [] = []
with_code (r ∷ reports) = keep_code r r.problem ++ with_code reports

report-with_code :
    (task : Task) (b : Bool) (code : Option Text) (reports : List (Report (Option Text)))
    → report task (worker_error b code) ++ with_code reports
      ≡ with_code (report task (own_error b code) ++ reports)
unfolding with_code
report-with_code task true code reports = refl
report-with_code task false none reports = refl
report-with_code task false (some code) reports = refl

more_than_one : {A : Type 0} (tasks : List A) → 2 ≤ length tasks → ltb 1 (length tasks) ≡ true
more_than_one tasks more = ground arith

module _ (run_binary : List (Text × Value) → Pattern) (readable : IsReadable run_binary) where
  judged-with_code :
      (tasks : List Task)
      → judged (k_judge run_binary readable true).worker tasks
        ≡ with_code (judged (k_judge run_binary readable true).own tasks)
  unfolding judged with_code k_judge
  judged-with_code [] = refl
  judged-with_code (task ∷ tasks) =
      ap
        (λ reports.
          report task (worker_error (readable task).0 (error (verify_script run_binary task)))
          ++ reports)
        (judged-with_code tasks)
      ∙ report-with_code task (readable task).0 (error (verify_script run_binary task))
          (judged (k_judge run_binary readable true).own tasks)

  -- Where every run can be read and there are at least two tasks, the pool reports those failures that
  -- have an error code, in the order of the tasks, and drops the failures without one, which the
  -- verification in the process itself reports.
  pub run_tasks-with_code :
      (tasks : List Task)
      → 2 ≤ length tasks
      → run_tasks (k_judge run_binary readable true) tasks
        ≡ with_code (run_tasks (k_judge run_binary readable false) tasks)
  unfolding run_tasks k_judge
  run_tasks-with_code tasks more = rw (more_than_one tasks more) (judged-with_code tasks)

-- A run that fails has an error code.
abbrev pub HasCodes : (List (Text × Value) → Pattern) → Type 0
HasCodes run_binary =
    (task : Task)
    → success (verify_script run_binary task) ≡ ok false
    → (code : Text) × (error (verify_script run_binary task) ≡ some code)

own_worker_error :
    (b : Bool) (code : Option Text)
    → (b ≡ false → (c : Text) × (code ≡ some c))
    → worker_error b code ≡ own_error b code
own_worker_error true code coded = refl
own_worker_error false code coded = let (c, e) = coded refl in rw (e) refl

k_judge-Agrees :
    (run_binary : List (Text × Value) → Pattern) (readable : IsReadable run_binary)
    (has_pool : Bool)
    → HasCodes run_binary
    → Agrees (k_judge run_binary readable has_pool)
unfolding k_judge
k_judge-Agrees run_binary readable has_pool coded task =
    own_worker_error (readable task).0 (error (verify_script run_binary task))
      (λ b. coded task ((readable task).1 ∙ ap ok b))

-- Where every run can be read, and every run that fails has an error code, the verification of a block
-- by the K semantics returns the same with the process pool as without it.
pub verify_block_inner-k_judge :
    {Db : Type 0} (t : Table Db) (lib : Signatures) (run_binary : List (Text × Value) → Pattern)
    (readable : IsReadable run_binary) (db : Db) (block : Block) (height : ℕ)
    → HasCodes run_binary
    → verify_block_inner t lib (k_judge run_binary readable true) db block height
      ≡ verify_block_inner t lib (k_judge run_binary readable false) db block height
unfolding k_judge
verify_block_inner-k_judge t lib run_binary readable db block height coded =
    verify_block_inner-without_pool t lib (k_judge run_binary readable true) db block height
      (k_judge-Agrees run_binary readable true coded)
