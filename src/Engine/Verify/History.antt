-- ===== src/Engine/Verify/History.antt =====
-- `verify` begins with `reset`.
use bitcoin_script.Prelude.{ℕ, ◌≡◌, ap, Option, none, List, [], Bytes}
use bitcoin_script.Prelude.Int.{ℤ, pos}
use bitcoin_script.Engine.Stack.{empty_stack}
use bitcoin_script.Engine.Library.{Library}
use bitcoin_script.Engine.Verify.{Engine, verify}

abbrev fresh : {Tx : Type 0} → ℕ → Engine Tx
fresh flags = record {
  flags = flags;
  stack = empty_stack;
  tx = none;
  input_index = pos 0;
  input_value = pos 0;
  script_code = [];
  sigversion = 0;
}

-- The answer of `verify`, and the engine that it leaves behind, depend on the flags and on the
-- arguments alone: what the engine ran before has no effect.
pub verify_history :
    {Tx : Type 0} (lib : Library Tx) (e₁ e₂ : Engine Tx) (script_sig script_pubkey : Bytes)
    (tx : Option Tx) (input_index input_value : ℤ) (witness : List Bytes)
    → e₁.flags ≡ e₂.flags
    → verify lib e₁ script_sig script_pubkey tx input_index input_value witness
      ≡ verify lib e₂ script_sig script_pubkey tx input_index input_value witness
unfolding verify
verify_history lib e₁ e₂ script_sig script_pubkey tx input_index input_value witness same =
    ap (λ (f : ℕ). verify lib (fresh f) script_sig script_pubkey tx input_index input_value witness)
      same
