-- ===== src/Engine/Operations/ArithOps.antt =====
-- The arithmetic handlers of engine/operations.py. Python's integers have no bound.
use bitcoin_script.Prelude.{Bool, not, ◌&&◌, ◌||◌, if◌then◌else◌}
use bitcoin_script.Prelude.Int.{ℤ, pos, neg, ◌+ℤ◌, ◌-ℤ◌, abs_ℕ, eqb_ℤ, ltb_ℤ, leb_ℤ}
use bitcoin_script.Engine.Stack.{ok, Action, ◌>>=◌, ◌>>◌, push, pop}
use bitcoin_script.Engine.Number.{element_to_int, int_to_element, bool_to_element}
use bitcoin_script.Engine.Operations.StackOps.{op_verify}

-- `ScriptStack.element_to_int(stack.pop())`
unfoldable pub pop_int : Action ℤ
pop_int = do element ← pop; λ s. (ok (element_to_int element), s)

-- `stack.push(ScriptStack.int_to_element(v))` and the same for a Boolean.
unfoldable pub push_int : ℤ → Action (Unit {0})
push_int v = push (int_to_element v)

unfoldable pub push_bool : Bool → Action (Unit {0})
push_bool v = push (bool_to_element v)

unfoldable pub op_add : Action (Unit {0})
op_add = do b ← pop_int; a ← pop_int; push_int (a +ℤ b)

unfoldable pub op_sub : Action (Unit {0})
op_sub = do b ← pop_int; a ← pop_int; push_int (a -ℤ b)

unfoldable pub op_1add : Action (Unit {0})
op_1add = do a ← pop_int; push_int (a +ℤ pos 1)

unfoldable pub op_1sub : Action (Unit {0})
op_1sub = do a ← pop_int; push_int (a -ℤ pos 1)

unfoldable pub op_negate : Action (Unit {0})
op_negate = do a ← pop_int; push_int (neg a)

unfoldable pub op_abs : Action (Unit {0})
op_abs = do a ← pop_int; push_int (pos (abs_ℕ a))

unfoldable pub op_not : Action (Unit {0})
op_not = do a ← pop_int; push_bool (eqb_ℤ a (pos 0))

unfoldable pub op_0notequal : Action (Unit {0})
op_0notequal = do a ← pop_int; push_bool (not (eqb_ℤ a (pos 0)))

unfoldable pub op_booland : Action (Unit {0})
op_booland = do b ← pop_int; a ← pop_int; push_bool (not (eqb_ℤ a (pos 0)) && not (eqb_ℤ b (pos 0)))

unfoldable pub op_boolor : Action (Unit {0})
op_boolor = do b ← pop_int; a ← pop_int; push_bool (not (eqb_ℤ a (pos 0)) || not (eqb_ℤ b (pos 0)))

unfoldable pub op_numequal : Action (Unit {0})
op_numequal = do b ← pop_int; a ← pop_int; push_bool (eqb_ℤ a b)

unfoldable pub op_numequalverify : Action (Unit {0})
op_numequalverify = do op_numequal; op_verify

unfoldable pub op_numnotequal : Action (Unit {0})
op_numnotequal = do b ← pop_int; a ← pop_int; push_bool (not (eqb_ℤ a b))

unfoldable pub op_lessthan : Action (Unit {0})
op_lessthan = do b ← pop_int; a ← pop_int; push_bool (ltb_ℤ a b)

unfoldable pub op_greaterthan : Action (Unit {0})
op_greaterthan = do b ← pop_int; a ← pop_int; push_bool (ltb_ℤ b a)

unfoldable pub op_lessthanorequal : Action (Unit {0})
op_lessthanorequal = do b ← pop_int; a ← pop_int; push_bool (leb_ℤ a b)

unfoldable pub op_greaterthanorequal : Action (Unit {0})
op_greaterthanorequal = do b ← pop_int; a ← pop_int; push_bool (leb_ℤ b a)

-- Python's `min(a, b)` and `max(a, b)`.
unfoldable pub op_min : Action (Unit {0})
op_min = do b ← pop_int; a ← pop_int; push_int (if ltb_ℤ b a then b else a)

unfoldable pub op_max : Action (Unit {0})
op_max = do b ← pop_int; a ← pop_int; push_int (if ltb_ℤ a b then b else a)

unfoldable pub op_within : Action (Unit {0})
op_within = do
  max_val ← pop_int
  min_val ← pop_int
  x ← pop_int
  push_bool (leb_ℤ min_val x && ltb_ℤ x max_val)
