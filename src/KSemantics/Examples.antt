-- ===== src/KSemantics/Examples.antt =====
-- Patterns and runs on which the theorems of KSemantics are applied.
use Prim.Native.String.{String}
use bitcoin_script.Prelude.{◌≡◌, refl, true, false, List, [], ◌∷◌, arith}
use bitcoin_script.Prelude.Int.{pos}
use bitcoin_script.Prelude.Text.{Text, codes}
use bitcoin_script.Errors.{ok}
use bitcoin_script.Blockchain.Examples.Verifying.{memory, lib, before, block}
use bitcoin_script.Blockchain.VerifyBlock.{verify_block_inner}
use bitcoin_script.Blockchain.Tasks.{Task, run_tasks}
use bitcoin_script.KSemantics.{
  Pattern, app, dv, left_assoc, other, Patterns, no_patterns, with_pattern, Value, find_cell,
  list_items, success, error, verify_script, find_from, size, is_stuck, final_stack, collect_from,
  node_of, encode_latin_1,
}
use bitcoin_script.KSemantics.Cells.{first_cell, items, find_cell-first_cell, list_items-items}
use bitcoin_script.KSemantics.Judging.{
  IsReadable, HasCodes, k_judge, with_code, run_tasks-with_code, verify_block_inner-k_judge,
}

abbrev one : Pattern → Patterns
one p = with_pattern p no_patterns

abbrev list_item : String → Pattern
list_item s = app (codes "LblListItem") (one (app (codes "inj") (one (dv (codes s)))))

-- Two items as a LeftAssoc, with the empty list between them.
abbrev two_items : Pattern
two_items = left_assoc (
    with_pattern (list_item "a")
      (with_pattern (app (codes "Lbl'Stop'List") no_patterns) (one (list_item "bc"))))

abbrev final : Pattern → Pattern → Pattern → Pattern
final k stack error = app (codes "Lbl'-LT-'generatedTop'-GT-'") (
    with_pattern (app (codes "Lbl'-LT-'k'-GT-'") (one k)) (
      with_pattern (app (codes "Lbl'-LT-'stack'-GT-'") (one stack))
        (one (app (codes "Lbl'-LT-'error'-GT-'") (one error)))))

abbrev finished : Pattern
finished = app (codes "dotk") no_patterns

abbrev with_stack : Pattern
with_stack = final finished two_items (dv [])

items_test : list_items two_items ≡ ok (codes "a" ∷ codes "bc" ∷ [])
unfolding success error verify_script find_cell find_from size is_stuck final_stack list_items
    collect_from node_of encode_latin_1
items_test = refl

success_test : success with_stack ≡ ok true
unfolding success error verify_script find_cell find_from size is_stuck final_stack list_items
    collect_from node_of encode_latin_1
success_test = refl

-- An error code, and a script that is stuck without one.
failed_test : success (final finished two_items (dv (codes "EVAL_FALSE"))) ≡ ok false
unfolding success error verify_script find_cell find_from size is_stuck final_stack list_items
    collect_from node_of encode_latin_1
failed_test = refl

stuck_test : success (final other two_items (dv [])) ≡ ok false
unfolding success error verify_script find_cell find_from size is_stuck final_stack list_items
    collect_from node_of encode_latin_1
stuck_test = refl

-- A top element that is the number zero, in one byte, counts as a success.
zero_test : success (final finished (list_item "\0") (dv [])) ≡ ok true
unfolding success error verify_script find_cell find_from size is_stuck final_stack list_items
    collect_from node_of encode_latin_1
zero_test = refl

find_cell-first_cell_example :
    find_cell with_stack (codes "Lbl'-LT-'stack'-GT-'")
    ≡ first_cell (codes "Lbl'-LT-'stack'-GT-'") with_stack
find_cell-first_cell_example = find_cell-first_cell with_stack (codes "Lbl'-LT-'stack'-GT-'")

list_items-items_example : list_items two_items ≡ items two_items
list_items-items_example = list_items-items two_items

abbrev task : Task
task = record {
  tx_idx = 1;
  input_index = 0;
  script_sig = [];
  script_pubkey = 81 ∷ [];
  sighash = [];
  witness = [];
  flags = 1;
  tx_version = pos 1;
  n_locktime = 0;
  n_sequence = 0;
  tx = [];
  amount = pos 50;
  prevouts = [];
}

-- A runtime on which every script is stuck, and one on which every script ends in an error code.
abbrev sticks : List (Text × Value) → Pattern
sticks vars = final other two_items (dv [])

abbrev fails : List (Text × Value) → Pattern
fails vars = final finished two_items (dv (codes "EVAL_FALSE"))

sticks-IsReadable : IsReadable sticks
unfolding success error verify_script find_cell find_from size is_stuck final_stack list_items
    collect_from node_of encode_latin_1
sticks-IsReadable t = (false, refl)

fails-IsReadable : IsReadable fails
unfolding success error verify_script find_cell find_from size is_stuck final_stack list_items
    collect_from node_of encode_latin_1
fails-IsReadable t = (false, refl)

fails-HasCodes : HasCodes fails
unfolding success error verify_script find_cell find_from size is_stuck final_stack list_items
    collect_from node_of encode_latin_1
fails-HasCodes t h = (codes "EVAL_FALSE", refl)

run_tasks-with_code_example :
    run_tasks (k_judge sticks sticks-IsReadable true) (task ∷ task ∷ [])
    ≡ with_code (run_tasks (k_judge sticks sticks-IsReadable false) (task ∷ task ∷ []))
run_tasks-with_code_example =
    run_tasks-with_code sticks sticks-IsReadable (task ∷ task ∷ []) (omega arith)

verify_block_inner-k_judge_example :
    verify_block_inner memory lib (k_judge fails fails-IsReadable true) before block 100
    ≡ verify_block_inner memory lib (k_judge fails fails-IsReadable false) before block 100
verify_block_inner-k_judge_example =
    verify_block_inner-k_judge memory lib fails fails-IsReadable before block 100 fails-HasCodes
