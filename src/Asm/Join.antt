-- ===== src/Asm/Join.antt =====
-- Texts that are put together with a space between them.
use bitcoin_script.Prelude.{
  ℕ, ◌≡◌, refl, sym, ap, ◌∙◌, true, Option, none, some, List, [], ◌∷◌, ◌++◌, append_assoc, Bytes,
  Bool-cases, inl, inr,
}
use bitcoin_script.Prelude.Text.{
  Text, is_space, is_blank, split, from_hex, behind, split-append, is_blank-split, from_hex-append,
}
use bitcoin_script.Errors.{Result, ok, err, err≢ok, ok-inj}
use bitcoin_script.Asm.{token_hex, tokens_hex, parse_asm, or_value_error, join_hex, join_bytes}

-- The bytes of a result behind others.
abbrev pub script_behind : Bytes → Result Bytes → Result Bytes
script_behind bytes (err e) = err e
script_behind bytes (ok more) = ok (bytes ++ more)

-- A blank text is assembled as every other.
pub parse_asm-tokens : (asm : Text) → parse_asm asm ≡ join_bytes (tokens_hex (split asm))
unfolding parse_asm tokens_hex from_hex
parse_asm-tokens asm = elim (Bool-cases (is_blank asm)) [
  | inl e ↦ rw (parse_asm, e, is_blank-split asm e) refl
  | inr e ↦ rw (parse_asm, e) refl
]

join_hex-ok :
    (first own all more : Result Text) (text : Text)
    → join_hex first own ≡ ok text
    → ((t : Text) → own ≡ ok t → all ≡ join_hex (ok t) more)
    → join_hex first all ≡ join_hex (ok text) more
join_hex-ok (ok x) (ok t) all more text h f =
    ap (join_hex (ok x)) (f t refl)
    ∙ put_together more
    ∙ ap (λ (r : Result Text). join_hex r more) h
  where
    put_together :
        (more : Result Text) → join_hex (ok x) (join_hex (ok t) more) ≡ join_hex (ok (x ++ t)) more
    put_together (ok m) = ap ok (sym (append_assoc x t m))
    put_together (err e) = refl
join_hex-ok (ok x) (err e) all more text h f = absurd (err≢ok h)
join_hex-ok (err e) own all more text h f = absurd (err≢ok h)

tokens_hex-append :
    (a b : List Text) (text : Text)
    → tokens_hex a ≡ ok text
    → tokens_hex (a ++ b) ≡ join_hex (ok text) (tokens_hex b)
unfolding tokens_hex
tokens_hex-append [] b text h =
    alone (tokens_hex b) ∙ ap (λ (r : Result Text). join_hex r (tokens_hex b)) h
  where
    alone : (r : Result Text) → r ≡ join_hex (ok []) r
    alone (ok m) = refl
    alone (err e) = refl
tokens_hex-append (token ∷ a) b text h =
    join_hex-ok (token_hex token) (tokens_hex a) (tokens_hex (a ++ b)) (tokens_hex b) text h
      (λ t e. tokens_hex-append a b t e)

join_bytes_parts :
    (r : Result Text) (script : Bytes)
    → join_bytes r ≡ ok script
    → (text : Text) × (r ≡ ok text) × (from_hex text ≡ some script)
join_bytes_parts (err e) script h = absurd (err≢ok h)
join_bytes_parts (ok text) script h = (text, refl, found (from_hex text) h)
  where
    found : (o : Option Bytes) → or_value_error o ≡ ok script → o ≡ some script
    found none h = absurd (err≢ok h)
    found (some x) h = ap some (ok-inj h)

join_bytes-join_hex :
    (text : Text) (script : Bytes) (more : Result Text)
    → from_hex text ≡ some script
    → join_bytes (join_hex (ok text) more) ≡ script_behind script (join_bytes more)
join_bytes-join_hex text script (err e) h = refl
join_bytes-join_hex text script (ok m) h =
    ap or_value_error (from_hex-append text m script h) ∙ result_of (from_hex m)
  where
    result_of :
        (o : Option Bytes)
        → or_value_error (behind script o) ≡ script_behind script (or_value_error o)
    result_of none = refl
    result_of (some x) = refl

-- If a text can be assembled, then with a space and another text behind it, it assembles to its own
-- script and that of the other text behind it, or raises what the other text raises.
pub parse_asm-append :
    (a b : Text) (space : ℕ) (script : Bytes)
    → is_space space ≡ true
    → parse_asm a ≡ ok script
    → parse_asm (a ++ space ∷ b) ≡ script_behind script (parse_asm b)
parse_asm-append a b space script s h =
    let (text, tokens, bytes) =
      join_bytes_parts (tokens_hex (split a)) script (sym (parse_asm-tokens a) ∙ h) in
    parse_asm-tokens (a ++ space ∷ b)
    ∙ ap (λ (ws : List Text). join_bytes (tokens_hex ws)) (split-append a space b s)
    ∙ ap join_bytes (tokens_hex-append (split a) (split b) text tokens)
    ∙ join_bytes-join_hex text script (tokens_hex (split b)) bytes
    ∙ ap (script_behind script) (sym (parse_asm-tokens b))
