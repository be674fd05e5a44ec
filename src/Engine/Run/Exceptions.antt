-- ===== src/Engine/Run/Exceptions.antt =====
-- Which exceptions leave `_run_script`.
use bitcoin_script.Prelude.{◌≡◌, refl, Bool, true, false, List, [], ◌∷◌, Bytes, arith, ltb, length}
use bitcoin_script.Engine.Stack.{Error, is_script_error, Result, ok, err, ScriptStack}
use bitcoin_script.Engine.Outcome.{
  Returns, Raises, continue-Raises, continue-Returns, continue-Returns_any, Returns-mono,
}
use bitcoin_script.Engine.Library.{Library}
use bitcoin_script.Engine.Run.{
  Context, Locals, locals, run_script, run_items, as_script_error, convert_result, raise_if, finish,
  max_script_size,
}

abbrev pub IsScriptError : Error → Type 0
IsScriptError e = is_script_error e ≡ true

converted : (A : Type 0) (p : Result A × ScriptStack) → Raises IsScriptError (convert_result p)
unfolding convert_result
converted A (ok a, s) = tt
converted A (err e, s) = ground arith

pub convert_result-Returns :
    (A : Type 0) (P : A → ScriptStack → Type 0) (p : Result A × ScriptStack)
    → Returns P p
    → Returns P (convert_result p)
unfolding convert_result
convert_result-Returns A P (ok a, s) h = h
convert_result-Returns A P (err e, s) h = tt

raise_if-Raises :
    (b : Bool) (e : Error) (s : ScriptStack)
    → IsScriptError e
    → Raises IsScriptError (raise_if b e s)
unfolding raise_if
raise_if-Raises true e s h = h
raise_if-Raises false e s h = tt

finish-Raises : (conds : List Bool) (s : ScriptStack) → Raises IsScriptError (finish conds s)
unfolding finish
finish-Raises [] s = tt
finish-Raises (b ∷ conds) s = refl

module _ {Tx : Type 0} (lib : Library Tx) (ctx : Context Tx) where
  -- Whatever happens in a script, only an exception of the ScriptError hierarchy leaves
  -- `_run_script`.
  pub run_script-Raises :
      (script : Bytes) (s : ScriptStack) → Raises IsScriptError (run_script lib ctx script s)
  unfolding run_script as_script_error
  run_script-Raises script s =
      continue-Raises IsScriptError _ _
        (raise_if-Raises (ltb max_script_size (length script)) Error.script_size s refl)
        λ _ s₁.
          continue-Raises {A = Locals} IsScriptError _ _ (converted Locals _)
            λ l s₂. finish-Raises l.cond_stack s₂

  finish-empty :
      (conds : List Bool) (s : ScriptStack) → Returns (λ _ _. conds ≡ []) (finish conds s)
  unfolding finish
  finish-empty [] s = refl
  finish-empty (b ∷ conds) s = tt

  -- What the loop establishes holds of a script that runs to its end, with no conditional open.
  pub run_script-Returns :
      (P : Locals → ScriptStack → Type 0) (T : Type 0) (script : Bytes) (s : ScriptStack)
      → ((s₁ : ScriptStack)
          → Returns P (
              run_items lib ctx
                (lib.iterate script).items
                (lib.iterate script).fails
                (locals [] 0)
                s₁))
      → ((l : Locals) (s₂ : ScriptStack) → P l s₂ → l.cond_stack ≡ [] → T)
      → Returns (λ _ _. T) (run_script lib ctx script s)
  unfolding run_script as_script_error
  run_script-Returns P T script s loop conclude =
      continue-Returns_any (λ _ _. T) _ _
        λ _ s₁.
          continue-Returns P (λ _ _. T) _ _ (convert_result-Returns Locals P _ (loop s₁))
            λ l s₂ h.
              Returns-mono (λ _ _. l.cond_stack ≡ []) (λ _ _. T) _ (finish-empty l.cond_stack s₂)
                λ _ s₃ e. conclude l s₂ h e
