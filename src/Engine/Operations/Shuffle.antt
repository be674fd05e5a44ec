-- ===== src/Engine/Operations/Shuffle.antt =====
-- The handlers that only rearrange the stack, against their stack pictures.
use bitcoin_script.Prelude.{
  ℕ, zero, suc, ◌≤◌, ◌<◌, ◌≡◌, refl, List, [], ◌∷◌, ◌++◌, map, Bytes, length, drop, arith,
}
use bitcoin_script.Engine.Stack.{Error, ok, err, ScriptStack, Action, push, pop, peek}
use bitcoin_script.Engine.Operations.StackOps.{
  op_dup, op_drop, op_swap, op_over, op_rot, op_2dup, op_3dup, op_2drop, op_2swap, op_2over,
  op_2rot, op_nip, op_tuck,
}

pub data Shuffle : Type 0 where
  dup drop1 swap over rot dup2 dup3 drop2 swap2 over2 rot2 nip tuck : Shuffle

pub handler : Shuffle → Action (Unit {0})
handler dup = op_dup
handler drop1 = op_drop
handler swap = op_swap
handler over = op_over
handler rot = op_rot
handler dup2 = op_2dup
handler dup3 = op_3dup
handler drop2 = op_2drop
handler swap2 = op_2swap
handler over2 = op_2over
handler rot2 = op_2rot
handler nip = op_nip
handler tuck = op_tuck

-- Bitcoin's stack picture of an opcode: how many elements it looks at, and where each of the
-- elements that take their place comes from, the top first.
unfoldable pub arity : Shuffle → ℕ
arity dup = 1
arity drop1 = 1
arity swap = 2
arity over = 2
arity rot = 3
arity dup2 = 2
arity dup3 = 3
arity drop2 = 2
arity swap2 = 4
arity over2 = 4
arity rot2 = 6
arity nip = 2
arity tuck = 2

pub picture : Shuffle → List ℕ
picture dup = 0 ∷ 0 ∷ []
picture drop1 = []
picture swap = 1 ∷ 0 ∷ []
picture over = 1 ∷ 0 ∷ 1 ∷ []
picture rot = 2 ∷ 0 ∷ 1 ∷ []
picture dup2 = 0 ∷ 1 ∷ 0 ∷ 1 ∷ []
picture dup3 = 0 ∷ 1 ∷ 2 ∷ 0 ∷ 1 ∷ 2 ∷ []
picture drop2 = []
picture swap2 = 2 ∷ 3 ∷ 0 ∷ 1 ∷ []
picture over2 = 2 ∷ 3 ∷ 0 ∷ 1 ∷ 2 ∷ 3 ∷ []
picture rot2 = 4 ∷ 5 ∷ 0 ∷ 1 ∷ 2 ∷ 3 ∷ []
picture nip = 0 ∷ []
picture tuck = 0 ∷ 1 ∷ 0 ∷ []

pub element_at : List Bytes → ℕ → Bytes
element_at [] i = []
element_at (x ∷ xs) zero = x
element_at (x ∷ xs) (suc i) = element_at xs i

abbrev pub rearranged : Shuffle → ScriptStack → ScriptStack
rearranged op s = record s { main = map (element_at s.main) (picture op) ++ drop (arity op) s.main }

shuffles :
    (op : Shuffle) (main alt : List Bytes)
    → arity op ≤ length main
    → handler op (record { main = main; alt = alt })
      ≡ (ok tt, rearranged op (record { main = main; alt = alt }))
unfolding handler arity picture element_at pop peek push op_dup op_drop op_swap op_over op_rot
    op_2dup op_3dup op_2drop op_2swap op_2over op_2rot op_nip op_tuck
shuffles dup (a ∷ m) alt h = refl
shuffles drop1 (a ∷ m) alt h = refl
shuffles swap (a ∷ b ∷ m) alt h = refl
shuffles over (a ∷ b ∷ m) alt h = refl
shuffles rot (a ∷ b ∷ c ∷ m) alt h = refl
shuffles dup2 (a ∷ b ∷ m) alt h = refl
shuffles dup3 (a ∷ b ∷ c ∷ m) alt h = refl
shuffles drop2 (a ∷ b ∷ m) alt h = refl
shuffles swap2 (a ∷ b ∷ c ∷ d ∷ m) alt h = refl
shuffles over2 (a ∷ b ∷ c ∷ d ∷ m) alt h = refl
shuffles rot2 (a ∷ b ∷ c ∷ d ∷ e ∷ f ∷ m) alt h = refl
shuffles nip (a ∷ b ∷ m) alt h = refl
shuffles tuck (a ∷ b ∷ m) alt h = refl
shuffles _ _ alt h = absurd (omega arith)

underflows :
    (op : Shuffle) (main alt : List Bytes)
    → length main < arity op
    → (handler op (record { main = main; alt = alt })).0 ≡ err Error.stack_underflow
unfolding handler arity picture element_at pop peek push op_dup op_drop op_swap op_over op_rot
    op_2dup op_3dup op_2drop op_2swap op_2over op_2rot op_nip op_tuck
underflows dup (a ∷ m) alt h = absurd (omega arith)
underflows drop1 (a ∷ m) alt h = absurd (omega arith)
underflows swap (a ∷ b ∷ m) alt h = absurd (omega arith)
underflows over (a ∷ b ∷ m) alt h = absurd (omega arith)
underflows rot (a ∷ b ∷ c ∷ m) alt h = absurd (omega arith)
underflows dup2 (a ∷ b ∷ m) alt h = absurd (omega arith)
underflows dup3 (a ∷ b ∷ c ∷ m) alt h = absurd (omega arith)
underflows drop2 (a ∷ b ∷ m) alt h = absurd (omega arith)
underflows swap2 (a ∷ b ∷ c ∷ d ∷ m) alt h = absurd (omega arith)
underflows over2 (a ∷ b ∷ c ∷ d ∷ m) alt h = absurd (omega arith)
underflows rot2 (a ∷ b ∷ c ∷ d ∷ e ∷ f ∷ m) alt h = absurd (omega arith)
underflows nip (a ∷ b ∷ m) alt h = absurd (omega arith)
underflows tuck (a ∷ b ∷ m) alt h = absurd (omega arith)
underflows _ _ alt h = refl

-- With enough elements every handler of the table does what its picture says: the picture replaces
-- the elements that the opcode looks at, and what lies below and the alt stack stay.
pub handler-rearranged :
    (op : Shuffle) (s : ScriptStack)
    → arity op ≤ length s.main
    → handler op s ≡ (ok tt, rearranged op s)
handler-rearranged op s h = shuffles op s.main s.alt h

-- With fewer elements than it looks at, a handler of the table raises StackUnderflowError.
pub handler_underflow :
    (op : Shuffle) (s : ScriptStack)
    → length s.main < arity op
    → (handler op s).0 ≡ err Error.stack_underflow
handler_underflow op s h = underflows op s.main s.alt h
