-- ===== src/Engine/Outcome.antt =====
-- Postconditions of actions, and their rules for a sequence.
use bitcoin_script.Prelude.{◌≡◌}
use bitcoin_script.Engine.Stack.{Error, Result, ok, err, ScriptStack, Action, continue}

-- What holds of a call's result and of the stacks behind it, if it returned one.
abbrev pub Returns : {A : Type 0} → (A → ScriptStack → Type 0) → Result A × ScriptStack → Type 0
Returns P (ok a, s) = P a s
Returns P (err e, s) = Unit {0}

-- What holds of a call's exception, if it raised one.
abbrev pub Raises : {A : Type 0} → (Error → Type 0) → Result A × ScriptStack → Type 0
Raises P (ok a, s) = Unit {0}
Raises P (err e, s) = P e

pub continue-Returns :
    {A B : Type 0} (P : A → ScriptStack → Type 0) (Q : B → ScriptStack → Type 0) (f : A → Action B)
    (p : Result A × ScriptStack)
    → Returns P p
    → ((a : A) (s : ScriptStack) → P a s → Returns Q (f a s))
    → Returns Q (continue f p)
continue-Returns P Q f (ok a, s) h k = k a s h
continue-Returns P Q f (err e, s) h k = tt

pub continue-Raises :
    {A B : Type 0} (P : Error → Type 0) (f : A → Action B) (p : Result A × ScriptStack)
    → Raises P p
    → ((a : A) (s : ScriptStack) → Raises P (f a s))
    → Raises P (continue f p)
continue-Raises P f (ok a, s) h k = k a s
continue-Raises P f (err e, s) h k = h

pub Returns-mono :
    {A : Type 0} (P Q : A → ScriptStack → Type 0) (p : Result A × ScriptStack)
    → Returns P p
    → ((a : A) (s : ScriptStack) → P a s → Q a s)
    → Returns Q p
Returns-mono P Q (ok a, s) h k = k a s h
Returns-mono P Q (err e, s) h k = tt

-- Without a fact about the first call.
pub continue-Returns_any :
    {A B : Type 0} (Q : B → ScriptStack → Type 0) (f : A → Action B) (p : Result A × ScriptStack)
    → ((a : A) (s : ScriptStack) → Returns Q (f a s))
    → Returns Q (continue f p)
continue-Returns_any Q f (ok a, s) k = k a s
continue-Returns_any Q f (err e, s) k = tt

pub Returns_of_eq :
    {A : Type 0} (P : A → ScriptStack → Type 0) {p : Result A × ScriptStack} {a : A}
    {s : ScriptStack}
    → p ≡ (ok a, s)
    → Returns P p
    → P a s
Returns_of_eq P e h = rw e at h

pub Raises_of_eq :
    {A : Type 0} (P : Error → Type 0) {p : Result A × ScriptStack} {e : Error} {s : ScriptStack}
    → p ≡ (err e, s)
    → Raises P p
    → P e
Raises_of_eq P e h = rw e at h

-- A postcondition that says nothing of the stacks.
pub result_of_ok :
    {A : Type 0} (P : Type 0) (p : Result A × ScriptStack) {a : A}
    → Returns (λ _ _. P) p
    → p.0 ≡ ok a
    → P
result_of_ok P (ok a, s) h e = h
result_of_ok P (err x, s) h e = cc
