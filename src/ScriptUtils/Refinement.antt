-- ===== src/ScriptUtils/Refinement.antt =====
-- script_utils.py: what each loop answers, as a function of the tokens of the script.
use bitcoin_script.Prelude.{
  ℕ, zero, suc, ◌+◌, ◌≡◌, refl, sym, ap, ◌∙◌, true, Option, none, some, List, [], ◌∷◌, ◌++◌,
  append_assoc, append-nil, Bytes, length, length-append, take, drop, if◌then◌else◌, ◌==◌, arith,
  Bool-cases, Option-cases, inl, inr,
}
use bitcoin_script.ScriptUtils.Walk.{
  next_push, last_push_from, extract_last_push, push_data_from, extract_push_data, codesep_from,
  find_codesep_positions, remove_from, remove_codeseparators,
}
use bitcoin_script.ScriptUtils.Tokens.{
  Token, plain, data_push, tokens_from, tokens, token_bytes, unparse, payloads, last_of, is_codesep,
  advance, separator_ends, without_codeseps, unparse-tokens,
}

last_push_from-tokens :
    (fuel : ℕ) (s : Bytes) (o : Option Bytes)
    → last_push_from fuel s o ≡ last_of o (payloads (tokens_from fuel s))
unfolding last_push_from tokens_from
last_push_from-tokens zero s o = refl
last_push_from-tokens (suc fuel) [] o = refl
last_push_from-tokens (suc fuel) (op ∷ rest) o = elim (Option-cases (next_push op rest)) [
  | inl e ↦
      rw (e, last_push_from, tokens_from, payloads, last_of) (last_push_from-tokens fuel rest o)
  | inr (p, e) ↦
      rw (e, last_push_from, tokens_from, payloads, last_of)
        (last_push_from-tokens fuel (drop p.size p.rest) (some (take p.size p.rest)))
]

-- extract_last_push answers the data of the last push among the tokens of the script, or nothing
-- where the script has no push.
pub extract_last_push-tokens :
    (s : Bytes) → extract_last_push s ≡ last_of none (payloads (tokens s))
unfolding extract_last_push tokens
extract_last_push-tokens s = last_push_from-tokens (length s) s none

push_data_from-tokens :
    (fuel : ℕ) (s : Bytes) (items : List Bytes)
    → push_data_from fuel s items ≡ items ++ payloads (tokens_from fuel s)
unfolding push_data_from tokens_from
push_data_from-tokens zero s items = sym (append-nil items)
push_data_from-tokens (suc fuel) [] items = sym (append-nil items)
push_data_from-tokens (suc fuel) (op ∷ rest) items = elim (Option-cases (next_push op rest)) [
  | inl e ↦ rw (e, push_data_from, tokens_from, payloads) (push_data_from-tokens fuel rest items)
  | inr (p, e) ↦
      rw (e, push_data_from, tokens_from, payloads)
        (push_data_from-tokens fuel (drop p.size p.rest) (items ++ take p.size p.rest ∷ [])
          ∙ append_assoc items (take p.size p.rest ∷ [])
              (payloads (tokens_from fuel (drop p.size p.rest))))
]

-- extract_push_data answers the data of all pushes among the tokens of the script, in order.
pub extract_push_data-tokens : (s : Bytes) → extract_push_data s ≡ payloads (tokens s)
unfolding extract_push_data tokens
extract_push_data-tokens s = push_data_from-tokens (length s) s []

codesep_no_push : (op : ℕ) (rest : Bytes) → op == 0xab ≡ true → next_push op rest ≡ none
unfolding next_push
codesep_no_push op rest h = ground arith

advance_step : (p h n : ℕ) → p + 1 + h + n ≡ p + (1 + h + n)
advance_step p h n = omega arith

codesep_from-tokens :
    (fuel : ℕ) (s : Bytes) (p : ℕ) (found : List ℕ)
    → codesep_from fuel s p found ≡ found ++ separator_ends p (tokens_from fuel s)
unfolding codesep_from tokens_from
codesep_from-tokens zero s p found = sym (append-nil found)
codesep_from-tokens (suc fuel) [] p found = sym (append-nil found)
codesep_from-tokens (suc fuel) (op ∷ rest) p found = elim (Bool-cases (op == 0xab)) [
  | inl h ↦
      rw
        (
          h,
          codesep_no_push op rest h,
          codesep_from,
          tokens_from,
          separator_ends,
          is_codesep,
          h,
          if◌then◌else◌,
        )
        (codesep_from-tokens fuel rest (p + 1) (found ++ (p + 1) ∷ [])
          ∙ append_assoc found ((p + 1) ∷ []) (separator_ends (p + 1) (tokens_from fuel rest)))
  | inr h ↦ elim (Option-cases (next_push op rest)) [
    | inl e ↦
        rw (h, e, codesep_from, tokens_from, separator_ends, is_codesep, h, advance, if◌then◌else◌)
          (codesep_from-tokens fuel rest (p + 1) found)
    | inr (x, e) ↦
        rw (h, e, codesep_from, tokens_from, separator_ends, is_codesep, advance, if◌then◌else◌)
          (codesep_from-tokens fuel (drop x.size x.rest) (p + 1 + length x.header + x.size) found
            ∙ ap (λ (n : ℕ). found ++ separator_ends n (tokens_from fuel (drop x.size x.rest)))
                (advance_step p (length x.header) x.size))
  ]
]

-- find_codesep_positions answers the position behind every code separator among the tokens of the
-- script, in order; a byte 0xab in the data of a push is none.
pub find_codesep_positions-tokens :
    (s : Bytes) → find_codesep_positions s ≡ separator_ends 0 (tokens s)
unfolding find_codesep_positions tokens
find_codesep_positions-tokens s = codesep_from-tokens (length s) s 0 []

remove_from-tokens :
    (fuel : ℕ) (s result : Bytes)
    → remove_from fuel s result ≡ result ++ unparse (without_codeseps (tokens_from fuel s))
unfolding remove_from tokens_from
remove_from-tokens zero s result = sym (append-nil result)
remove_from-tokens (suc fuel) [] result = sym (append-nil result)
remove_from-tokens (suc fuel) (op ∷ rest) result = elim (Bool-cases (op == 0xab)) [
  | inl h ↦
      rw
        (
          h,
          codesep_no_push op rest h,
          remove_from,
          tokens_from,
          without_codeseps,
          is_codesep,
          h,
          if◌then◌else◌,
        )
        (remove_from-tokens fuel rest result)
  | inr h ↦ elim (Option-cases (next_push op rest)) [
    | inl e ↦
        rw
          (
            h, e, remove_from, tokens_from, without_codeseps, is_codesep, h, unparse, token_bytes,
            if◌then◌else◌,
          )
          (remove_from-tokens fuel rest (result ++ op ∷ [])
            ∙ append_assoc result (op ∷ []) (unparse (without_codeseps (tokens_from fuel rest))))
    | inr (x, e) ↦
        rw
          (
            h, e, remove_from, tokens_from, without_codeseps, is_codesep, unparse, token_bytes,
            if◌then◌else◌,
          )
          (remove_from-tokens fuel (drop x.size x.rest)
              (result ++ op ∷ (x.header ++ take x.size x.rest))
            ∙ append_assoc result (op ∷ (x.header ++ take x.size x.rest))
                (unparse (without_codeseps (tokens_from fuel (drop x.size x.rest)))))
  ]
]

-- remove_codeseparators answers the script without its code separators: the tokens of the script
-- but the code separators, put together again.
pub remove_codeseparators-tokens :
    (s : Bytes) → remove_codeseparators s ≡ unparse (without_codeseps (tokens s))
unfolding remove_codeseparators tokens
remove_codeseparators-tokens s = remove_from-tokens (length s) s []

length-without_codeseps :
    (p : ℕ) (ts : List Token)
    → length (unparse ts) ≡ length (unparse (without_codeseps ts)) + length (separator_ends p ts)
length-without_codeseps p [] = refl
length-without_codeseps p (plain op ∷ ts) = elim (Bool-cases (op == 0xab)) [
  | inl h ↦
      rw (without_codeseps, separator_ends, is_codesep, h, if◌then◌else◌, unparse, token_bytes)
        omega (arith, length-without_codeseps (p + 1) ts)
  | inr h ↦
      rw (without_codeseps, separator_ends, is_codesep, h, if◌then◌else◌, unparse, token_bytes)
        omega (arith, length-without_codeseps (p + 1) ts)
]
length-without_codeseps p (data_push op header size payload ∷ ts) = omega (
  arith,
  length-append (op ∷ (header ++ payload)) (unparse ts),
  length-append (op ∷ (header ++ payload)) (unparse (without_codeseps ts)),
  length-without_codeseps (p + (1 + length header + size)) ts,
)

-- remove_codeseparators takes one byte away for every position that find_codesep_positions finds.
pub length-remove_codeseparators :
    (s : Bytes) → length s ≡ length (remove_codeseparators s) + length (find_codesep_positions s)
length-remove_codeseparators s =
    rw (remove_codeseparators-tokens s, find_codesep_positions-tokens s)
      (ap length (sym (unparse-tokens s)) ∙ length-without_codeseps 0 (tokens s))
