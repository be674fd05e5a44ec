-- ===== src/Errors.antt =====
-- The exceptions of the program (engine/errors.py, and those that Python raises) as values.
use bitcoin_script.Prelude.{◌≡◌, ◌⊎◌, inl, inr, refl, ap, ◌≢◌, Bool, true, false}

-- The classes of errors.py that derive from ScriptError, then the other exceptions that the
-- engine's code can meet: `index_error` and `key_error` are Python's, `value_error` is raised by
-- script_types, and `library_error` stands for whatever a library call raises.
pub data Error : Type 0 where
  script_invalid eval_false op_disabled stack_underflow push_size op_count stack_size : Error
  script_size verify_failed invalid_signature unbalanced_conditional : Error
  index_error key_error value_error library_error : Error

-- `isinstance(exc, ScriptError)`
abbrev pub is_script_error : Error → Bool
is_script_error Error.index_error = false
is_script_error Error.key_error = false
is_script_error Error.value_error = false
is_script_error Error.library_error = false
is_script_error _ = true

pub data Result {ℓ} (A : Type ℓ) : Type ℓ where
  ok : A → Result A
  err : Error → Result A

pub ok-inj {ℓ} : {A : Type ℓ} {a b : A} → ok a ≡ ok b → a ≡ b
ok-inj {A = A} {a = a} e = ap (ok_or a) e
  where
    ok_or : A → Result A → A
    ok_or d (ok x) = x
    ok_or d (err _) = d

pub err≢ok {ℓ} : {A : Type ℓ} {e : Error} {a : A} → err e ≢ ok a
err≢ok {A = A} h = absurd (cc h)

-- What a chain of two steps returns, its steps return.
pub both_ok {ℓ κ} :
    {A : Type ℓ} {B : Type κ} (r : Result A) (f : A → Result B) (b : B)
    → elim r [ err e ↦ err e | ok a ↦ f a ] ≡ ok b
    → (a : A) × (r ≡ ok a) × (f a ≡ ok b)
both_ok (ok a) f b h = (a, refl, h)
both_ok (err e) f b h = absurd (err≢ok h)

pub Result-cases {ℓ} :
    {A : Type ℓ} (r : Result A) → ((e : Error) × (r ≡ err e)) ⊎ ((a : A) × (r ≡ ok a))
Result-cases (err e) = inl (e, refl)
Result-cases (ok a) = inr (a, refl)
