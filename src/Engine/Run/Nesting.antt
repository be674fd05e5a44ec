-- ===== src/Engine/Run/Nesting.antt =====
-- The nesting of IF, NOTIF, ELSE and ENDIF.
use bitcoin_script.Prelude.{
  ℕ, ◌+◌, ◌-◌, ◌≡◌, refl, Bool, true, false, ◌||◌, Option, none, some, List, [], ◌∷◌, Bytes, length,
  if◌then◌else◌, ◌==◌, inl, inr, arith,
}
use bitcoin_script.Engine.Stack.{ScriptStack, ok, err}
use bitcoin_script.Errors.{Result-cases}
use bitcoin_script.Engine.Outcome.{Returns, continue-Returns, result_of_ok}
use bitcoin_script.Engine.Run.Exceptions.{run_script-Returns}
use bitcoin_script.Engine.Library.{Library, Yielded}
use bitcoin_script.Engine.Run.{Context, Locals, unpack, locals, run_item, run_items, run_script}

-- How many conditionals are open behind an item, from how many are open before it; `none` where an
-- ELSE or an ENDIF has no IF. Data pushes are no conditionals, whatever their opcode.
pub nest_item : ℕ → Option Bytes → ℕ → Option ℕ
nest_item opcode (some push_data) depth = some depth
nest_item opcode none depth =
    if opcode == 0x63 || opcode == 0x64
    then some (depth + 1)
    else (if opcode == 0x67
        then (if depth == 0 then none else some depth)
        else (if opcode == 0x68
            then (if depth == 0 then none else some (depth - 1))
            else some depth))

-- `none` too, where an object does not unpack.
pub nest_items : List Yielded → ℕ → Option ℕ
nest_items [] depth = some depth
nest_items (object ∷ objects) depth = elim (unpack object) [
  | err e ↦ none
  | ok item ↦ elim (nest_item item.opcode item.payload depth) [
    | none ↦ none
    | some inner ↦ nest_items objects inner
  ]
]

module _ {Tx : Type 0} (lib : Library Tx) (ctx : Context Tx) where
  abbrev NestsTo : Option ℕ → Locals → ScriptStack → Type 0
  NestsTo depth l s = depth ≡ some (length l.cond_stack)

  run_item-NestsTo :
      (opcode : ℕ) (payload : Option Bytes) (conds : List Bool) (count : ℕ) (s : ScriptStack)
      → Returns
          (NestsTo (nest_item opcode payload (length conds)))
          (run_item lib ctx opcode payload (locals conds count) s)
  unfolding run_item nest_item
  run_item-NestsTo opcode (some push_data) conds count s = ground arith
  run_item-NestsTo opcode none [] count s = ground arith
  run_item-NestsTo opcode none (b ∷ conds) count s = ground arith

  run_items-NestsTo :
      (items : List Yielded) (fails : Bool) (l : Locals) (s : ScriptStack)
      → Returns
          (NestsTo (nest_items items (length l.cond_stack)))
          (run_items lib ctx items fails l s)
  unfolding run_items nest_items
  run_items-NestsTo [] true l s = tt
  run_items-NestsTo [] false l s = refl
  run_items-NestsTo (object ∷ objects) fails l s = elim (Result-cases (unpack object)) [
    | inl (e, raised) ↦ rw (run_items, nest_items, raised) tt
    | inr (item, unpacked) ↦
        rw (run_items, nest_items, unpacked)
          (continue-Returns (NestsTo (nest_item item.opcode item.payload (length l.cond_stack))) _ _
            _ (run_item-NestsTo item.opcode item.payload l.cond_stack l.op_count s)
            λ l₁ s₁ h. rw (h) (run_items-NestsTo objects fails l₁ s₁))
  ]

  script_nests :
      (script : Bytes) (s : ScriptStack)
      → Returns
          (λ _ _. nest_items (lib.iterate script).items 0 ≡ some 0)
          (run_script lib ctx script s)
  script_nests script s =
      let items = (lib.iterate script).items in
      run_script-Returns lib ctx (NestsTo (nest_items items 0)) (nest_items items 0 ≡ some 0) script
        s (run_items-NestsTo items (lib.iterate script).fails (locals [] 0))
        λ l s₂ h e. ground arith

  -- In a script that runs to its end everything that the iterator yields unpacks, every ELSE and every ENDIF has its IF, and every IF its ENDIF,
  -- in branches that are taken or not.
  pub run_script-nests :
      (script : Bytes) (s : ScriptStack)
      → (run_script lib ctx script s).0 ≡ ok tt
      → nest_items (lib.iterate script).items 0 ≡ some 0
  run_script-nests script s e = result_of_ok _ _ (script_nests script s) e
