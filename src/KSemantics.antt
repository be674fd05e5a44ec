-- ===== src/KSemantics.antt =====
-- k_semantics/semantics.py: the configuration that a script is run in, and what is read of the pattern
-- that the compiled K semantics answers. KORE patterns are pyk's; the model has the constructors that
-- the source looks at.
pub mod Cells
pub mod Judging
mod Examples
use bitcoin_script.Prelude.{
  ℕ, zero, suc, ◌+◌, Bool, true, false, not, ◌&&◌, ◌||◌, Option, none, some, List, [], ◌∷◌, ◌++◌,
  Bytes, length, bytes_eq, if◌then◌else◌, ltb, ◌==◌,
}
use bitcoin_script.Prelude.Int.{ℤ, pos}
use bitcoin_script.Blockchain.Tasks.{Task}
use bitcoin_script.Prelude.Text.{Text, codes}
use bitcoin_script.Errors.{Error, Result, ok, err}
use bitcoin_script.Asm.{starts_with}

-- `App(symbol, args)`, `DV(String)`, `LeftAssoc(args)`, and any other pattern.
mutual
  pub data Pattern : Type 0 where
    app : Text → Patterns → Pattern
    dv : Text → Pattern
    left_assoc : Patterns → Pattern
    other : Pattern

  pub data Patterns : Type 0 where
    no_patterns : Patterns
    with_pattern : Pattern → Patterns → Patterns

unfoldable mutual
  pub size : Pattern → ℕ
  size (app symbol args) = suc (sizes args)
  size (dv value) = 1
  size (left_assoc args) = suc (sizes args)
  size other = 1

  pub sizes : Patterns → ℕ
  sizes no_patterns = 0
  sizes (with_pattern p ps) = size p + sizes ps

-- `stack.extend(reversed(args))`, on a stack with its top first.
abbrev pub put_all : Patterns → Patterns → Patterns
put_all no_patterns rest = rest
put_all (with_pattern p ps) rest = with_pattern p (put_all ps rest)

-- The loop of `_find_cell`: the arguments of the cell.
unfoldable pub find_from : ℕ → Text → Patterns → Option Patterns
find_from zero symbol stack = none
find_from (suc fuel) symbol no_patterns = none
find_from (suc fuel) symbol (with_pattern (app s args) rest) =
    let deeper = find_from fuel symbol (put_all args rest) in
    if bytes_eq s symbol then some args else deeper
find_from (suc fuel) symbol (with_pattern (dv value) rest) = find_from fuel symbol rest
find_from (suc fuel) symbol (with_pattern (left_assoc args) rest) = find_from fuel symbol rest
find_from (suc fuel) symbol (with_pattern other rest) = find_from fuel symbol rest

unfoldable pub find_cell : Pattern → Text → Option Patterns
find_cell pattern symbol = find_from (size pattern) symbol (with_pattern pattern no_patterns)

-- `value.encode("latin-1")`
unfoldable pub encode_latin_1 : Text → Result Bytes
encode_latin_1 [] = ok []
encode_latin_1 (c ∷ text) = elim (encode_latin_1 text) [
  | err e ↦ err e
  | ok bytes ↦ if ltb c 256 then ok (c ∷ bytes) else err Error.value_error
]

-- `inner.args[0]` of an injection, which has an argument.
abbrev pub without_injection : Pattern → Result Pattern
without_injection (app symbol no_patterns) =
    if starts_with (codes "inj") symbol then err Error.index_error else ok (app symbol no_patterns)
without_injection (app symbol (with_pattern p ps)) =
    if starts_with (codes "inj") symbol then ok p else ok (app symbol (with_pattern p ps))
without_injection p = ok p

abbrev pub token_of : Result Pattern → Result (List Bytes)
token_of (err e) = err e
token_of (ok (dv value)) = elim (encode_latin_1 value) [
  | err e ↦ err e
  | ok bytes ↦ ok (bytes ∷ [])
]
token_of (ok p) = ok []

abbrev pub both_items : Result (List Bytes) → Result (List Bytes) → Result (List Bytes)
both_items (err e) more = err e
both_items (ok items) (err e) = err e
both_items (ok items) (ok more) = ok (items ++ more)

-- What a node of a list is: nodes that are put on the worklist, an item, or nothing.
pub data Node : Type 0 where
  nested : Patterns → Node
  item : Pattern → Node
  neither : Node

unfoldable pub node_of : Pattern → Node
node_of (left_assoc args) = nested args
node_of (app symbol no_patterns) =
    if bytes_eq symbol (codes "Lbl'Unds'List'Unds'") then nested no_patterns else neither
node_of (app symbol (with_pattern p ps)) =
    if bytes_eq symbol (codes "Lbl'Stop'List")
    then neither
    else (if bytes_eq symbol (codes "LblListItem")
        then item p
        else (if bytes_eq symbol (codes "Lbl'Unds'List'Unds'")
            then nested (with_pattern p ps)
            else neither))
node_of p = neither

-- The loop of `_collect_list_items`.
unfoldable pub collect_from : ℕ → Patterns → Result (List Bytes)
collect_from zero worklist = ok []
collect_from (suc fuel) no_patterns = ok []
collect_from (suc fuel) (with_pattern p rest) = elim (node_of p) [
  | nested args ↦ collect_from fuel (put_all args rest)
  | item inner ↦ both_items (token_of (without_injection inner)) (collect_from fuel rest)
  | neither ↦ collect_from fuel rest
]

unfoldable pub list_items : Pattern → Result (List Bytes)
list_items pattern = collect_from (size pattern) (with_pattern pattern no_patterns)

abbrev pub stack_of : Option Patterns → Result (List Bytes)
stack_of none = err Error.value_error
stack_of (some no_patterns) = ok []
stack_of (some (with_pattern first rest)) = list_items first

-- The methods `stack`, `is_stuck`, `error` and `success`.
unfoldable pub final_stack : Pattern → Result (List Bytes)
final_stack pattern = stack_of (find_cell pattern (codes "Lbl'-LT-'stack'-GT-'"))

abbrev pub is_empty_k : Option Patterns → Bool
is_empty_k (some (with_pattern (app symbol args) rest)) = bytes_eq symbol (codes "dotk")
is_empty_k _ = false

unfoldable pub is_stuck : Pattern → Bool
is_stuck pattern = not (is_empty_k (find_cell pattern (codes "Lbl'-LT-'k'-GT-'")))

abbrev pub text_or_none : Text → Option Text
text_or_none [] = none
text_or_none (c ∷ text) = some (c ∷ text)

abbrev pub error_of : Option Patterns → Option Text
error_of (some (with_pattern (dv value) rest)) = text_or_none value
error_of _ = none

unfoldable pub error : Pattern → Option Text
error pattern = error_of (find_cell pattern (codes "Lbl'-LT-'error'-GT-'"))

abbrev pub top_is_filled : Result (List Bytes) → Result Bool
top_is_filled (err e) = err e
top_is_filled (ok []) = ok false
top_is_filled (ok (top ∷ items)) = ok (ltb 0 (length top))

unfoldable pub success : Pattern → Result Bool
success pattern = elim (error pattern) [
  | some message ↦ ok false
  | none ↦ if is_stuck pattern then ok false else top_is_filled (final_stack pattern)
]

-- A value of a configuration variable, of SortBytes or of SortInt.
pub data Value : Type 0 where
  sort_bytes : Bytes → Value
  sort_int : ℤ → Value

-- `sigops_budget if sigops_budget is not None else 2_000_000_000`
abbrev pub budget : Option ℤ → ℤ
budget none = pos 2000000000
budget (some n) = n

-- The configuration variables of `verify_script`, of a task of the block verifier and a budget.
unfoldable pub config_vars : Task → Option ℤ → List (Text × Value)
config_vars task sigops_budget =
    (codes "$SCRIPTSIG", sort_bytes task.script_sig)
    ∷ (codes "$SCRIPTPUBKEY", sort_bytes task.script_pubkey)
    ∷ (codes "$SIGHASH", sort_bytes task.sighash)
    ∷ (codes "$WITNESS", sort_bytes task.witness)
    ∷ (codes "$FLAGS", sort_int (pos task.flags))
    ∷ (codes "$TXVERSION", sort_int task.tx_version)
    ∷ (codes "$NLOCKTIME", sort_int (pos task.n_locktime))
    ∷ (codes "$NSEQUENCE", sort_int (pos task.n_sequence))
    ∷ (codes "$SIGOPSBUDGET", sort_int (budget sigops_budget))
    ∷ (codes "$TX", sort_bytes task.tx)
    ∷ (codes "$PREVOUTS", sort_bytes task.prevouts)
    ∷ (codes "$INPUTINDEX", sort_int (pos task.input_index))
    ∷ (codes "$AMOUNT", sort_int task.amount)
    ∷ []

-- `verify_script` as the block verifier calls it, with the runtime as a parameter.
unfoldable pub verify_script : (List (Text × Value) → Pattern) → Task → Pattern
verify_script run_binary task = run_binary (config_vars task none)
