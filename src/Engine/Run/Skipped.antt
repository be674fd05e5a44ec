-- ===== src/Engine/Run/Skipped.antt =====
-- Branches that are not taken.
use bitcoin_script.Prelude.{ℕ, ◌≡◌, Bool, false, Option, none, some, List, Bytes, arith}
use bitcoin_script.Engine.Stack.{ScriptStack}
use bitcoin_script.Engine.Library.{Library}
use bitcoin_script.Engine.Run.{Context, locals, executing, run_item}

module _ {Tx : Type 0} (lib : Library Tx) (ctx : Context Tx) where
  -- Inside a branch that is not taken no item of a script touches the stacks, whether it is a push,
  -- a conditional or any other opcode, and whether it raises or not.
  pub run_item_skipped :
      (opcode : ℕ) (payload : Option Bytes) (conds : List Bool) (count : ℕ) (s : ScriptStack)
      → executing conds ≡ false
      → (run_item lib ctx opcode payload (locals conds count) s).1 ≡ s
  unfolding run_item
  run_item_skipped opcode (some push_data) conds count s h = ground arith
  run_item_skipped opcode none conds count s h = ground arith
