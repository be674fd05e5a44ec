-- ===== src/Engine/Flags/Commas.antt =====
-- How the names of flags may be spelled: between commas, and in lower case.
use std.Path.{fun_ext}
use bitcoin_script.Prelude.{
  ℕ, ◌≡◌, refl, sym, ap, ◌∙◌, Bool, true, false, List, [], ◌∷◌, ◌++◌, map, Bool-cases, inl, inr,
  ◌==◌, arith,
}
use bitcoin_script.Prelude.Text.{Text, is_space, upper, to_upper}
use bitcoin_script.Errors.{Result, ok, err}
use bitcoin_script.Engine.Flags.{
  put_part, comma_parts, split_commas, skip_spaces, unless_spaces, drop_spaces, strip, add_flag,
  and_then, add_tokens, add_texts, from_names,
}

comma_parts-append :
    (a b : Text)
    → comma_parts (a ++ 44 ∷ b) ≡ ((comma_parts a).0, (comma_parts a).1 ++ split_commas b)
unfolding comma_parts split_commas
comma_parts-append [] b = refl
comma_parts-append (c ∷ a) b =
    ap (put_part (c == 44) c) (comma_parts-append a b)
    ∙ before (c == 44) (comma_parts a).0 (comma_parts a).1
  where
    before :
        (is_comma : Bool) (part : Text) (parts : List Text)
        → put_part is_comma c (part, parts ++ split_commas b) ≡ (
          (put_part is_comma c (part, parts)).0,
          (put_part is_comma c (part, parts)).1 ++ split_commas b,
        )
    before true part parts = refl
    before false part parts = refl

split_commas-append : (a b : Text) → split_commas (a ++ 44 ∷ b) ≡ split_commas a ++ split_commas b
unfolding split_commas
split_commas-append a b = ap (λ (p : Text × List Text). p.0 ∷ p.1) (comma_parts-append a b)

and_then_assoc :
    (r : Result ℕ) (f g : ℕ → Result ℕ)
    → and_then (and_then r f) g ≡ and_then r (λ n. and_then (f n) g)
and_then_assoc (err e) f g = refl
and_then_assoc (ok n) f g = refl

add_tokens-append :
    (result : ℕ) (a b : List Text)
    → add_tokens result (a ++ b) ≡ and_then (add_tokens result a) (λ more. add_tokens more b)
unfolding add_tokens
add_tokens-append result [] b = refl
add_tokens-append result (token ∷ a) b =
    ap (and_then (add_flag result (to_upper (strip token))))
      (fun_ext (λ more. add_tokens-append more a b))
    ∙ sym (
        and_then_assoc (add_flag result (to_upper (strip token))) (λ more. add_tokens more a)
          (λ more. add_tokens more b))

-- Two texts of names and one text with a comma between them are read as the same flags, or fail alike.
pub from_names-comma :
    (a b : Text) (rest : List Text) → from_names ((a ++ 44 ∷ b) ∷ rest) ≡ from_names (a ∷ b ∷ rest)
unfolding from_names add_texts
from_names-comma a b rest =
    ap (λ tokens. and_then (add_tokens 0 tokens) (λ more. add_texts more rest))
      (split_commas-append a b)
    ∙ ap (λ r. and_then r (λ more. add_texts more rest))
        (add_tokens-append 0 (split_commas a) (split_commas b))
    ∙ and_then_assoc (add_tokens 0 (split_commas a)) (λ more. add_tokens more (split_commas b))
        (λ more. add_texts more rest)

upper_comma : (c : ℕ) → (upper c == 44) ≡ (c == 44)
upper_comma c = ground arith

upper_space : (c : ℕ) → is_space (upper c) ≡ is_space c
upper_space c = ground arith

upper_twice : (c : ℕ) → upper (upper c) ≡ upper c
upper_twice c = ground arith

to_upper_twice : (text : Text) → to_upper (to_upper text) ≡ to_upper text
to_upper_twice [] = refl
to_upper_twice (c ∷ text) = rw (upper_twice c, to_upper_twice text) refl

split_commas-to_upper :
    (text : Text) → split_commas (to_upper text) ≡ map to_upper (split_commas text)
unfolding split_commas comma_parts
split_commas-to_upper text = ap (λ (p : Text × List Text). p.0 ∷ p.1) (parts text)
  where
    both : Text × List Text → Text × List Text
    both (part, parts) = (to_upper part, map to_upper parts)

    put :
        (is_comma : Bool) (c : ℕ) (p : Text × List Text)
        → put_part is_comma (upper c) (both p) ≡ both (put_part is_comma c p)
    put true c (part, parts) = refl
    put false c (part, parts) = refl

    parts : (t : Text) → comma_parts (to_upper t) ≡ both (comma_parts t)
    parts [] = refl
    parts (c ∷ t) =
        ap (λ is_comma. put_part is_comma (upper c) (comma_parts (to_upper t))) (upper_comma c)
        ∙ ap (put_part (c == 44) (upper c)) (parts t)
        ∙ put (c == 44) c (comma_parts t)

skip_spaces-to_upper : (text : Text) → skip_spaces (to_upper text) ≡ to_upper (skip_spaces text)
unfolding skip_spaces
skip_spaces-to_upper [] = refl
skip_spaces-to_upper (c ∷ text) = elim (Bool-cases (is_space c)) [
  | inl e ↦ rw (upper_space c, e) (skip_spaces-to_upper text)
  | inr e ↦ rw (upper_space c, e) refl
]

drop_spaces-to_upper : (text : Text) → drop_spaces (to_upper text) ≡ to_upper (drop_spaces text)
unfolding drop_spaces
drop_spaces-to_upper [] = refl
drop_spaces-to_upper (c ∷ text) =
    ap (λ space. unless_spaces space (upper c) (drop_spaces (to_upper text))) (upper_space c)
    ∙ ap (unless_spaces (is_space c) (upper c)) (drop_spaces-to_upper text)
    ∙ put (is_space c) (drop_spaces text)
  where
    put :
        (space : Bool) (rest : Text)
        → unless_spaces space (upper c) (to_upper rest) ≡ to_upper (unless_spaces space c rest)
    put true [] = refl
    put true (d ∷ rest) = refl
    put false rest = refl

strip-to_upper : (text : Text) → to_upper (strip (to_upper text)) ≡ to_upper (strip text)
unfolding strip
strip-to_upper text =
    ap (λ t. to_upper (drop_spaces t)) (skip_spaces-to_upper text)
    ∙ ap to_upper (drop_spaces-to_upper (skip_spaces text))
    ∙ to_upper_twice (drop_spaces (skip_spaces text))

add_tokens-to_upper :
    (result : ℕ) (tokens : List Text)
    → add_tokens result (map to_upper tokens) ≡ add_tokens result tokens
unfolding add_tokens
add_tokens-to_upper result [] = refl
add_tokens-to_upper result (token ∷ tokens) =
    ap (λ t. and_then (add_flag result t) (λ more. add_tokens more (map to_upper tokens)))
      (strip-to_upper token)
    ∙ ap (and_then (add_flag result (to_upper (strip token))))
        (fun_ext (λ more. add_tokens-to_upper more tokens))

add_texts-to_upper :
    (result : ℕ) (names : List Text)
    → add_texts result (map to_upper names) ≡ add_texts result names
unfolding add_texts
add_texts-to_upper result [] = refl
add_texts-to_upper result (n ∷ names) =
    ap (λ tokens. and_then (add_tokens result tokens) (λ more. add_texts more (map to_upper names)))
      (split_commas-to_upper n)
    ∙ ap (λ r. and_then r (λ more. add_texts more (map to_upper names)))
        (add_tokens-to_upper result (split_commas n))
    ∙ ap (and_then (add_tokens result (split_commas n)))
        (fun_ext (λ more. add_texts-to_upper more names))

-- The names of flags are read alike in upper case and in any other.
pub from_names-to_upper : (names : List Text) → from_names (map to_upper names) ≡ from_names names
unfolding from_names
from_names-to_upper names = add_texts-to_upper 0 names
