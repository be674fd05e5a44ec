-- ===== src/Engine/Run/Limits.antt =====
-- The limit on counted opcodes.
use bitcoin_script.Prelude.{
  ℕ, ◌+◌, ◌≤◌, ◌≡◌, Bool, true, false, Option, none, some, List, [], ◌∷◌, Bytes, if◌then◌else◌, ltb,
  inl, inr, arith,
}
use bitcoin_script.Engine.Stack.{ScriptStack, Result, ok, err}
use bitcoin_script.Errors.{Result-cases}
use bitcoin_script.Engine.Outcome.{Returns, continue-Returns, Returns-mono, result_of_ok}
use bitcoin_script.Engine.Run.Exceptions.{run_script-Returns}
use bitcoin_script.Engine.Library.{Library, Yielded}
use bitcoin_script.Engine.Run.{
  Context, Locals, Item, unpack, locals, run_item, run_items, run_script, max_ops_per_script,
}

-- How many items of a script the limit counts: those that are no push, above OP_16.
abbrev pub counted : ℕ → Option Bytes → ℕ
counted opcode (some push_data) = 0
counted opcode none = if ltb 0x60 opcode then 1 else 0

abbrev pub counted_object : Result Item → ℕ
counted_object (err e) = 0
counted_object (ok item) = counted item.opcode item.payload

pub count_items : List Yielded → ℕ
count_items [] = 0
count_items (object ∷ objects) = counted_object (unpack object) + count_items objects

module _ {Tx : Type 0} (lib : Library Tx) (ctx : Context Tx) where
  abbrev CountsTo : ℕ → ℕ → Locals → ScriptStack → Type 0
  CountsTo before n l s =
      (l.op_count ≡ before + n) × (before ≤ max_ops_per_script → l.op_count ≤ max_ops_per_script)

  run_item-CountsTo :
      (opcode : ℕ) (payload : Option Bytes) (l : Locals) (s : ScriptStack)
      → Returns (CountsTo l.op_count (counted opcode payload)) (run_item lib ctx opcode payload l s)
  unfolding run_item
  run_item-CountsTo opcode (some push_data) l s = ground arith
  run_item-CountsTo opcode none l s = ground arith

  run_items-CountsTo :
      (items : List Yielded) (fails : Bool) (l : Locals) (s : ScriptStack)
      → Returns (CountsTo l.op_count (count_items items)) (run_items lib ctx items fails l s)
  unfolding run_items count_items
  run_items-CountsTo [] true l s = tt
  run_items-CountsTo [] false l s = ground arith
  run_items-CountsTo (object ∷ objects) fails l s = elim (Result-cases (unpack object)) [
    | inl (e, raised) ↦ rw (run_items, raised) tt
    | inr (item, unpacked) ↦
        rw (run_items, count_items, unpacked)
          (continue-Returns (CountsTo l.op_count (counted item.opcode item.payload)) _ _ _
            (run_item-CountsTo item.opcode item.payload l s)
            λ l₁ s₁ h.
              Returns-mono (CountsTo l₁.op_count (count_items objects)) _ _
                (run_items-CountsTo objects fails l₁ s₁) λ l₂ s₂ k. ground arith)
  ]

  script_counts :
      (script : Bytes) (s : ScriptStack)
      → Returns
          (λ _ _. count_items (lib.iterate script).items ≤ max_ops_per_script)
          (run_script lib ctx script s)
  script_counts script s =
      let items = (lib.iterate script).items in
      run_script-Returns lib ctx (CountsTo 0 (count_items items))
        (count_items items ≤ max_ops_per_script) script s
        (run_items-CountsTo items (lib.iterate script).fails (locals [] 0)) λ l s₂ h e. ground arith

  -- A script that runs to its end has at most 201 opcodes that are no push and stand above OP_16,
  -- in branches that are taken or not.
  pub run_script-count :
      (script : Bytes) (s : ScriptStack)
      → (run_script lib ctx script s).0 ≡ ok tt
      → count_items (lib.iterate script).items ≤ max_ops_per_script
  run_script-count script s e = result_of_ok _ _ (script_counts script s) e
