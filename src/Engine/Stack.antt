-- ===== src/Engine/Stack.antt =====
-- The two stacks (class ScriptStack of engine/stack.py).
-- A method is an action: it takes the stacks and returns its result with the stacks, which keep
-- what was written before a raise. A Python list that is used as a stack stands here with its last
-- element first, so that `_main[-1]` is the head; `StackElement` is `Bytes`.
pub use bitcoin_script.Errors.{Error, is_script_error, Result, ok, err}
use bitcoin_script.Prelude.{
  ℕ, zero, suc, ◌-◌, Bool, true, false, Option, none, some, List, [], ◌∷◌, length, get_elem?, Bytes,
  if◌then◌else◌, ltb,
}
use bitcoin_script.Prelude.Int.{ℤ, pos, negsuc}

pub record ScriptStack : Type 0 where
  pub main : List Bytes
  pub alt : List Bytes

-- `ScriptStack()`
abbrev pub empty_stack : ScriptStack
empty_stack = record { main = []; alt = [] }

abbrev pub Action : Type 0 → Type 0
Action A = ScriptStack → Result A × ScriptStack

module _ {A : Type 0} where
  abbrev pub pure : A → Action A
  pure a s = (ok a, s)

  abbrev pub raise : Error → Action A
  raise e s = (err e, s)

-- What follows an action: nothing, if it raised.
abbrev pub continue :
    {A B : Type 0} → (A → Action B) → Result A × ScriptStack → Result B × ScriptStack
continue f (ok a, s) = f a s
continue f (err e, s) = (err e, s)

infixl 5 ◌>>=◌ ◌>>◌
abbrev pub ◌>>=◌ : {A B : Type 0} → Action A → (A → Action B) → Action B
◌>>=◌ m f s = continue f (m s)

abbrev pub ◌>>◌ : {A B : Type 0} → Action A → Action B → Action B
m >> k = m >>= λ _. k

abbrev pub skip : Action (Unit {0})
skip s = (ok tt, s)

unfoldable pub push : Bytes → Action (Unit {0})
push element s = (ok tt, record s { main = element ∷ s.main })

pop_from : List Bytes → List Bytes → Result Bytes × ScriptStack
pop_from [] alt = (err Error.stack_underflow, record { main = []; alt = alt })
pop_from (x ∷ rest) alt = (ok x, record { main = rest; alt = alt })

unfoldable pub pop : Action Bytes
unfolding pop_from
pop s = pop_from s.main s.alt

-- `_main[index]` for an index of either sign; -1 is the head.
unfoldable pub at_index : List Bytes → ℤ → Option Bytes
at_index main (pos i) = if ltb i (length main) then get_elem? main (length main - 1 - i) else none
at_index main (negsuc i) = get_elem? main i

unfoldable pub remove_at : List Bytes → ℕ → Option (Bytes × List Bytes)
remove_at [] i = none
remove_at (x ∷ rest) zero = some (x, rest)
remove_at (x ∷ rest) (suc i) = elim (remove_at rest i) [
  | none ↦ none
  | some (y, others) ↦ some (y, x ∷ others)
]

-- `_main.pop(index)`; `none` is Python's IndexError.
unfoldable pub remove_index : List Bytes → ℤ → Option (Bytes × List Bytes)
unfolding remove_at
remove_index main (pos i) =
    if ltb i (length main) then remove_at main (length main - 1 - i) else none
remove_index main (negsuc i) = remove_at main i

or_index_error : Option (Bytes × List Bytes) → Action Bytes
or_index_error none s = (err Error.index_error, s)
or_index_error (some (x, rest)) s = (ok x, record s { main = rest })

unfoldable pub pop_index : ℤ → Action Bytes
unfolding remove_index or_index_error
pop_index index s = or_index_error (remove_index s.main index) s

or_underflow : Option Bytes → Action Bytes
or_underflow none = raise Error.stack_underflow
or_underflow (some element) = pure element

unfoldable pub peek : ℤ → Action Bytes
unfolding at_index or_underflow
peek index s = or_underflow (at_index s.main index) s

abbrev pub size : ScriptStack → ℕ
size s = length s.main

abbrev pub is_empty_list : List Bytes → Bool
is_empty_list [] = true
is_empty_list (x ∷ rest) = false

abbrev pub is_empty : ScriptStack → Bool
is_empty s = is_empty_list s.main

unfoldable pub push_alt : Bytes → Action (Unit {0})
push_alt element s = (ok tt, record s { alt = element ∷ s.alt })

pop_alt_from : List Bytes → List Bytes → Result Bytes × ScriptStack
pop_alt_from main [] = (err Error.stack_underflow, record { main = main; alt = [] })
pop_alt_from main (x ∷ rest) = (ok x, record { main = main; alt = rest })

unfoldable pub pop_alt : Action Bytes
unfolding pop_alt_from
pop_alt s = pop_alt_from s.main s.alt
