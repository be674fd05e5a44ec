-- ===== src/ScriptUtils/Tokens.antt =====
-- The tokens of a script, as the common view of the loops of script_utils.py: each loop is one
-- function of the tokens.
use bitcoin_script.Prelude.{
  ℕ, zero, suc, ◌+◌, ◌≤◌, ◌≡◌, refl, ap, ◌∙◌, Bool, false, Option, none, some, List, [], ◌∷◌, ◌++◌,
  append_assoc, Bytes, length, length-append, take, drop, length-drop, take-append-drop,
  if◌then◌else◌, ◌==◌, arith, Option-cases, inl, inr,
}
use bitcoin_script.ScriptUtils.Walk.{Push, next_push}

-- A push keeps the bytes of its size, the size and the data, which are fewer bytes than the size
-- says where the script ends too early.
pub data Token : Type 0 where
  plain : ℕ → Token
  data_push : ℕ → Bytes → ℕ → Bytes → Token

unfoldable pub tokens_from : ℕ → Bytes → List Token
tokens_from zero script = []
tokens_from (suc fuel) [] = []
tokens_from (suc fuel) (op ∷ rest) = elim (next_push op rest) [
  | none ↦ plain op ∷ tokens_from fuel rest
  | some p ↦
      data_push op p.header p.size (take p.size p.rest) ∷ tokens_from fuel (drop p.size p.rest)
]

unfoldable pub tokens : Bytes → List Token
tokens script = tokens_from (length script) script

abbrev pub token_bytes : Token → Bytes
token_bytes (plain op) = op ∷ []
token_bytes (data_push op header size payload) = op ∷ (header ++ payload)

abbrev pub unparse : List Token → Bytes
unparse [] = []
unparse (t ∷ ts) = token_bytes t ++ unparse ts

-- The data of the pushes, in order.
abbrev pub payloads : List Token → List Bytes
payloads [] = []
payloads (plain op ∷ ts) = payloads ts
payloads (data_push op header size payload ∷ ts) = payload ∷ payloads ts

abbrev pub last_of : Option Bytes → List Bytes → Option Bytes
last_of o [] = o
last_of o (x ∷ xs) = last_of (some x) xs

abbrev pub is_codesep : Token → Bool
is_codesep (plain op) = op == 0xab
is_codesep (data_push op header size payload) = false

-- How far a token moves `pos`.
abbrev pub advance : Token → ℕ
advance (plain op) = 1
advance (data_push op header size payload) = 1 + length header + size

-- The positions behind the code separators.
abbrev pub separator_ends : ℕ → List Token → List ℕ
separator_ends p [] = []
separator_ends p (t ∷ ts) =
    if is_codesep t then (p + 1) ∷ separator_ends (p + 1) ts else separator_ends (p + advance t) ts

abbrev pub without_codeseps : List Token → List Token
without_codeseps [] = []
without_codeseps (t ∷ ts) = if is_codesep t then without_codeseps ts else t ∷ without_codeseps ts

-- The size bytes and what follows them are what stood behind the opcode.
next_push-splits :
    (op : ℕ) (rest : Bytes) {p : Push} → next_push op rest ≡ some p → p.header ++ p.rest ≡ rest
unfolding next_push
next_push-splits op [] h = ground arith
next_push-splits op (a ∷ []) h = ground arith
next_push-splits op (a ∷ b ∷ []) h = ground arith
next_push-splits op (a ∷ b ∷ c ∷ []) h = ground arith
next_push-splits op (a ∷ b ∷ c ∷ d ∷ rest) h = ground arith

pub next_push-length :
    (op : ℕ) (rest : Bytes) {p : Push}
    → next_push op rest ≡ some p
    → length (drop p.size p.rest) ≤ length rest
next_push-length op rest {p} h = omega (
  arith,
  length-drop p.size p.rest,
  length-append p.header p.rest,
  ap length (next_push-splits op rest h),
)

tokens_plain :
    (fuel op : ℕ) (rest : Bytes)
    → next_push op rest ≡ none
    → tokens_from (suc fuel) (op ∷ rest) ≡ plain op ∷ tokens_from fuel rest
unfolding tokens_from
tokens_plain fuel op rest e = rw (e, tokens_from) refl

tokens_push :
    (fuel op : ℕ) (rest : Bytes) (p : Push)
    → next_push op rest ≡ some p
    → tokens_from (suc fuel) (op ∷ rest)
      ≡ data_push op p.header p.size (take p.size p.rest) ∷ tokens_from fuel (drop p.size p.rest)
unfolding tokens_from
tokens_push fuel op rest p e = rw (e, tokens_from) refl

-- The tokens cover the whole script: the fuel is enough.
tokens_from-unparse : (fuel : ℕ) (s : Bytes) → length s ≤ fuel → unparse (tokens_from fuel s) ≡ s
tokens_from-unparse zero [] h = unfold tokens_from in refl
tokens_from-unparse zero (op ∷ rest) h = absurd (omega arith)
tokens_from-unparse (suc fuel) [] h = unfold tokens_from in refl
tokens_from-unparse (suc fuel) (op ∷ rest) h = elim (Option-cases (next_push op rest)) [
  | inl e ↦
      ap unparse (tokens_plain fuel op rest e)
      ∙ ap (λ (t : Bytes). op ∷ t) (tokens_from-unparse fuel rest (omega arith))
  | inr (p, e) ↦
      ap unparse (tokens_push fuel op rest p e)
      ∙ ap (λ (t : Bytes). op ∷ t)
          (append_assoc p.header (take p.size p.rest)
              (unparse (tokens_from fuel (drop p.size p.rest)))
            ∙ ap (λ (t : Bytes). p.header ++ (take p.size p.rest ++ t))
                (tokens_from-unparse fuel (drop p.size p.rest)
                  (omega (arith, next_push-length op rest e)))
            ∙ ap (λ (t : Bytes). p.header ++ t) (take-append-drop p.size p.rest)
            ∙ next_push-splits op rest e)
]

-- The tokens of a script, put together again, are the script.
pub unparse-tokens : (s : Bytes) → unparse (tokens s) ≡ s
unfolding tokens
unparse-tokens s = tokens_from-unparse (length s) s (omega arith)
