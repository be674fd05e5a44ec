-- ===== src/Engine/Operations/StackOps.antt =====
-- The handlers that move stack elements, OP_EQUAL, OP_VERIFY and the pushes of
-- engine/operations.py. Each statement of a handler is one action.
use bitcoin_script.Prelude.{ℕ, Bool, true, false, Bytes, length, bytes_eq}
use bitcoin_script.Prelude.Int.{ℤ, pos, negsuc, neg, ◌+ℤ◌, ◌-ℤ◌}
use bitcoin_script.Engine.Stack.{
  Error, ok, Action, raise, ◌>>=◌, ◌>>◌, skip, push, pop, pop_index, peek, size,
}
use bitcoin_script.Engine.Number.{element_to_int, element_to_bool, int_to_element, bool_to_element}

-- `stack.size()` as an action.
abbrev pub get_size : Action ℕ
get_size s = (ok (size s), s)

unfoldable pub op_push_data : Bytes → Action (Unit {0})
op_push_data push_data = push push_data

unfoldable pub op_push_number : ℤ → Action (Unit {0})
op_push_number n = push (int_to_element n)

unfoldable pub op_dup : Action (Unit {0})
op_dup = do push (← peek (negsuc 0))

unfoldable pub op_drop : Action (Unit {0})
op_drop = do pop; skip

unfoldable pub op_swap : Action (Unit {0})
op_swap = do a ← pop; b ← pop; push a; push b

unfoldable pub op_over : Action (Unit {0})
op_over = do push (← peek (negsuc 1))

unfoldable pub op_rot : Action (Unit {0})
op_rot = do c ← pop; b ← pop; a ← pop; push b; push c; push a

unfoldable pub op_pick : Action (Unit {0})
op_pick = do top ← pop; let n = element_to_int top; push (← peek (neg (n +ℤ pos 1)))

unfoldable pub op_roll : Action (Unit {0})
op_roll = do
  top ← pop
  let n = element_to_int top
  count ← get_size
  let idx = pos count -ℤ pos 1 -ℤ n
  element ← pop_index idx
  push element

unfoldable pub op_2dup : Action (Unit {0})
op_2dup = do b ← peek (negsuc 0); a ← peek (negsuc 1); push a; push b

unfoldable pub op_3dup : Action (Unit {0})
op_3dup = do c ← peek (negsuc 0); b ← peek (negsuc 1); a ← peek (negsuc 2); push a; push b; push c

unfoldable pub op_2drop : Action (Unit {0})
op_2drop = do pop; pop; skip

unfoldable pub op_2swap : Action (Unit {0})
op_2swap = do d ← pop; c ← pop; b ← pop; a ← pop; push c; push d; push a; push b

unfoldable pub op_2over : Action (Unit {0})
op_2over = do a ← peek (negsuc 3); b ← peek (negsuc 2); push a; push b

unfoldable pub op_2rot : Action (Unit {0})
op_2rot = do
  f ← pop
  e ← pop
  d ← pop
  c ← pop
  b ← pop
  a ← pop
  push c
  push d
  push e
  push f
  push a
  push b

push_if : Bool → Bytes → Action (Unit {0})
push_if true top = push top
push_if false top = skip

unfoldable pub op_ifdup : Action (Unit {0})
unfolding push_if
op_ifdup = do top ← peek (negsuc 0); push_if (element_to_bool top) top

unfoldable pub op_depth : Action (Unit {0})
op_depth = do push (int_to_element (pos (← get_size)))

unfoldable pub op_nip : Action (Unit {0})
op_nip = do top ← pop; pop; push top

unfoldable pub op_tuck : Action (Unit {0})
op_tuck = do top ← pop; second ← pop; push top; push second; push top

unfoldable pub op_size : Action (Unit {0})
op_size = do top ← peek (negsuc 0); push (int_to_element (pos (length top)))

unfoldable pub op_equal : Action (Unit {0})
op_equal = do b ← pop; a ← pop; push (bool_to_element (bytes_eq a b))

verify_top : Bool → Action (Unit {0})
verify_top true = skip
verify_top false = raise Error.verify_failed

unfoldable pub op_verify : Action (Unit {0})
unfolding verify_top
op_verify = do top ← pop; verify_top (element_to_bool top)

unfoldable pub op_equalverify : Action (Unit {0})
op_equalverify = do op_equal; op_verify
