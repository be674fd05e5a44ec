-- ===== src/Engine/Operations/Numeric.antt =====
-- The arithmetic handlers against integer functions, through the encoding of numbers.
use bitcoin_script.Prelude.{
  ◌≡◌, refl, sym, ap, ◌∙◌, List, ◌∷◌, Bool, true, false, not, ◌&&◌, ◌||◌, Bytes, if◌then◌else◌,
  arith,
}
use bitcoin_script.Prelude.Int.{ℤ, pos, neg, ◌+ℤ◌, ◌-ℤ◌, abs_ℕ, eqb_ℤ, ltb_ℤ, leb_ℤ, eq_of_parts}
use bitcoin_script.Engine.Stack.{ok, ScriptStack, Action, push, pop}
use bitcoin_script.Engine.Number.{element_to_int, int_to_element, bool_to_element}
use bitcoin_script.Engine.Number.RoundTrip.{element_to_int-int_to_element}
use bitcoin_script.Engine.Operations.ArithOps.{
  pop_int, push_int, push_bool, op_add, op_sub, op_1add, op_1sub, op_negate, op_abs, op_not,
  op_0notequal, op_booland, op_boolor, op_numequal, op_numnotequal, op_lessthan, op_greaterthan,
  op_lessthanorequal, op_greaterthanorequal, op_min, op_max, op_within,
}

pub data Unary : Type 0 where
  add1 sub1 negate abs not0 not_equal0 : Unary

pub data Binary : Type 0 where
  add sub booland boolor numequal numnotequal lessthan greaterthan lessthanorequal : Binary
  greaterthanorequal minimum maximum : Binary

pub unary_handler : Unary → Action (Unit {0})
unary_handler add1 = op_1add
unary_handler sub1 = op_1sub
unary_handler negate = op_negate
unary_handler abs = op_abs
unary_handler not0 = op_not
unary_handler not_equal0 = op_0notequal

pub binary_handler : Binary → Action (Unit {0})
binary_handler add = op_add
binary_handler sub = op_sub
binary_handler booland = op_booland
binary_handler boolor = op_boolor
binary_handler numequal = op_numequal
binary_handler numnotequal = op_numnotequal
binary_handler lessthan = op_lessthan
binary_handler greaterthan = op_greaterthan
binary_handler lessthanorequal = op_lessthanorequal
binary_handler greaterthanorequal = op_greaterthanorequal
binary_handler minimum = op_min
binary_handler maximum = op_max

-- A truth value as a number.
abbrev pub indicator : Bool → ℤ
indicator true = pos 1
indicator false = pos 0

nonzero : ℤ → Bool
nonzero a = not (eqb_ℤ a (pos 0))

-- What the opcodes mean on integers; `a` is the second element and `b` the top one.
pub unary_meaning : Unary → ℤ → ℤ
unary_meaning add1 a = a +ℤ pos 1
unary_meaning sub1 a = a -ℤ pos 1
unary_meaning negate a = pos 0 -ℤ a
unary_meaning abs a = if ltb_ℤ a (pos 0) then pos 0 -ℤ a else a
unary_meaning not0 a = indicator (not (nonzero a))
unary_meaning not_equal0 a = indicator (nonzero a)

pub binary_meaning : Binary → ℤ → ℤ → ℤ
binary_meaning add a b = a +ℤ b
binary_meaning sub a b = a -ℤ b
binary_meaning booland a b = indicator (nonzero a && nonzero b)
binary_meaning boolor a b = indicator (nonzero a || nonzero b)
binary_meaning numequal a b = indicator (eqb_ℤ a b)
binary_meaning numnotequal a b = indicator (not (eqb_ℤ a b))
binary_meaning lessthan a b = indicator (not (leb_ℤ b a))
binary_meaning greaterthan a b = indicator (not (leb_ℤ a b))
binary_meaning lessthanorequal a b = indicator (not (ltb_ℤ b a))
binary_meaning greaterthanorequal a b = indicator (not (ltb_ℤ a b))
binary_meaning minimum a b = if leb_ℤ a b then a else b
binary_meaning maximum a b = if leb_ℤ a b then b else a

element_to_int-bool_to_element : (b : Bool) → element_to_int (bool_to_element b) ≡ indicator b
unfolding element_to_int bool_to_element
element_to_int-bool_to_element true = refl
element_to_int-bool_to_element false = refl

-- The handler ends without an exception, has taken its operands, and has left the element `z`.
abbrev pub Leaves : Action (Unit {0}) → ScriptStack → List Bytes → ℤ → Type 0
Leaves handler s rest v =
    (z : Bytes) × (handler s ≡ (ok tt, record { main = z ∷ rest; alt = s.alt }))
    × (element_to_int z ≡ v)

Leaves-int :
    (handler : Action (Unit {0})) (s : ScriptStack) (rest : List Bytes) (v w : ℤ)
    → handler s ≡ (ok tt, record { main = int_to_element v ∷ rest; alt = s.alt })
    → v ≡ w
    → Leaves handler s rest w
Leaves-int handler s rest v w run e = (int_to_element v, run, element_to_int-int_to_element v ∙ e)

Leaves-bool :
    (handler : Action (Unit {0})) (s : ScriptStack) (rest : List Bytes) (b c : Bool)
    → handler s ≡ (ok tt, record { main = bool_to_element b ∷ rest; alt = s.alt })
    → b ≡ c
    → Leaves handler s rest (indicator c)
Leaves-bool handler s rest b c run e =
    (bool_to_element b, run, element_to_int-bool_to_element b ∙ ap indicator e)

neg_lem : (a : ℤ) → neg a ≡ pos 0 -ℤ a
unfolding neg ◌-ℤ◌
neg_lem a = ground arith

abs_lem : (a : ℤ) → pos (abs_ℕ a) ≡ (if ltb_ℤ a (pos 0) then pos 0 -ℤ a else a)
unfolding ◌-ℤ◌
abs_lem a = ground arith

not_leb : (a b : ℤ) → ltb_ℤ a b ≡ not (leb_ℤ b a)
not_leb a b = ground arith

not_ltb : (a b : ℤ) → leb_ℤ a b ≡ not (ltb_ℤ b a)
not_ltb a b = ground arith

min_lem : (a b : ℤ) → (if ltb_ℤ b a then b else a) ≡ (if leb_ℤ a b then a else b)
min_lem a b = ground arith

max_lem : (a b : ℤ) → (if ltb_ℤ a b then b else a) ≡ (if leb_ℤ a b then b else a)
max_lem a b = ground (arith, eq_of_parts a b)

not-not : (b : Bool) → not (not b) ≡ b
not-not true = refl
not-not false = refl

abbrev pub one : Bytes → List Bytes → List Bytes → ScriptStack
one x rest alt = record { main = x ∷ rest; alt = alt }

abbrev pub two : Bytes → Bytes → List Bytes → List Bytes → ScriptStack
two y x rest alt = record { main = y ∷ x ∷ rest; alt = alt }

-- Every two-operand arithmetic handler computes its integer function: on any two elements it takes
-- both off, leaves an element that decodes to the function's value, and touches nothing else.
pub binary_handler-meaning :
    (op : Binary) (y x : Bytes) (rest alt : List Bytes)
    → Leaves
        (binary_handler op)
        (two y x rest alt)
        rest
        (binary_meaning op (element_to_int x) (element_to_int y))
unfolding binary_handler binary_meaning nonzero pop push pop_int push_int push_bool op_add op_sub
    op_booland op_boolor op_numequal op_numnotequal op_lessthan op_greaterthan op_lessthanorequal
    op_greaterthanorequal op_min op_max
binary_handler-meaning add y x rest alt =
    Leaves-int (binary_handler add) (two y x rest alt) rest _ _ refl refl
binary_handler-meaning sub y x rest alt =
    Leaves-int (binary_handler sub) (two y x rest alt) rest _ _ refl refl
binary_handler-meaning booland y x rest alt =
    Leaves-bool (binary_handler booland) (two y x rest alt) rest _ _ refl refl
binary_handler-meaning boolor y x rest alt =
    Leaves-bool (binary_handler boolor) (two y x rest alt) rest _ _ refl refl
binary_handler-meaning numequal y x rest alt =
    Leaves-bool (binary_handler numequal) (two y x rest alt) rest _ _ refl refl
binary_handler-meaning numnotequal y x rest alt =
    Leaves-bool (binary_handler numnotequal) (two y x rest alt) rest _ _ refl refl
binary_handler-meaning lessthan y x rest alt =
    Leaves-bool (binary_handler lessthan) (two y x rest alt) rest _ _ refl
      (not_leb (element_to_int x) (element_to_int y))
binary_handler-meaning greaterthan y x rest alt =
    Leaves-bool (binary_handler greaterthan) (two y x rest alt) rest _ _ refl
      (not_leb (element_to_int y) (element_to_int x))
binary_handler-meaning lessthanorequal y x rest alt =
    Leaves-bool (binary_handler lessthanorequal) (two y x rest alt) rest _ _ refl
      (not_ltb (element_to_int x) (element_to_int y))
binary_handler-meaning greaterthanorequal y x rest alt =
    Leaves-bool (binary_handler greaterthanorequal) (two y x rest alt) rest _ _ refl
      (not_ltb (element_to_int y) (element_to_int x))
binary_handler-meaning minimum y x rest alt =
    Leaves-int (binary_handler minimum) (two y x rest alt) rest _ _ refl
      (min_lem (element_to_int x) (element_to_int y))
binary_handler-meaning maximum y x rest alt =
    Leaves-int (binary_handler maximum) (two y x rest alt) rest _ _ refl
      (max_lem (element_to_int x) (element_to_int y))

-- Every one-operand arithmetic handler computes its integer function: on any element it takes it off,
-- leaves an element that decodes to the function's value, and touches nothing else.
pub unary_handler-meaning :
    (op : Unary) (x : Bytes) (rest alt : List Bytes)
    → Leaves (unary_handler op) (one x rest alt) rest (unary_meaning op (element_to_int x))
unfolding unary_handler unary_meaning nonzero pop push pop_int push_int push_bool op_1add op_1sub
    op_negate op_abs op_not op_0notequal
unary_handler-meaning add1 x rest alt =
    Leaves-int (unary_handler add1) (one x rest alt) rest _ _ refl refl
unary_handler-meaning sub1 x rest alt =
    Leaves-int (unary_handler sub1) (one x rest alt) rest _ _ refl refl
unary_handler-meaning negate x rest alt =
    Leaves-int (unary_handler negate) (one x rest alt) rest _ _ refl (neg_lem (element_to_int x))
unary_handler-meaning abs x rest alt =
    Leaves-int (unary_handler abs) (one x rest alt) rest _ _ refl (abs_lem (element_to_int x))
unary_handler-meaning not0 x rest alt =
    Leaves-bool (unary_handler not0) (one x rest alt) rest _ _ refl
      (sym (not-not (eqb_ℤ (element_to_int x) (pos 0))))
unary_handler-meaning not_equal0 x rest alt =
    Leaves-bool (unary_handler not_equal0) (one x rest alt) rest _ _ refl refl

-- OP_WITHIN takes the upper bound, the lower bound and the value off and leaves 1 where the value is at
-- least the lower bound and below the upper one, and 0 otherwise.
pub op_within_lem :
    (max_val min_val x : Bytes) (rest alt : List Bytes)
    → let inside =
        not (ltb_ℤ (element_to_int x) (element_to_int min_val))
        && ltb_ℤ (element_to_int x) (element_to_int max_val) in
      Leaves op_within
        (record { main = max_val ∷ min_val ∷ x ∷ rest; alt = alt })
        rest
        (indicator inside)
unfolding op_within pop push pop_int push_bool
op_within_lem max_val min_val x rest alt =
    Leaves-bool op_within (record { main = max_val ∷ min_val ∷ x ∷ rest; alt = alt }) rest _ _ refl
      (ap (λ (t : Bool). t && ltb_ℤ (element_to_int x) (element_to_int max_val))
        (not_ltb (element_to_int min_val) (element_to_int x)))
