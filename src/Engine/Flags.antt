-- ===== src/Engine/Flags.antt =====
-- engine/flags.py: the names of the verification flags. A name is ASCII.
pub mod RoundTrip
pub mod Commas
mod Examples
use bitcoin_script.Prelude.{
  ℕ, Bool, true, false, not, ◌&&◌, Option, none, some, List, [], ◌∷◌, bit_and, bit_or, bytes_eq,
  if◌then◌else◌, ◌==◌,
}
use bitcoin_script.Prelude.Text.{Text, codes, is_space, to_upper}
use bitcoin_script.Errors.{Error, Result, ok, err}
use bitcoin_script.Asm.{starts_with}

-- The members of `ScriptVerifyFlag` but NONE, in the order of the class.
abbrev pub members : List (Text × ℕ)
members =
    (codes "P2SH", 1)
    ∷ (codes "STRICTENC", 2)
    ∷ (codes "DERSIG", 4)
    ∷ (codes "LOW_S", 8)
    ∷ (codes "NULLDUMMY", 16)
    ∷ (codes "SIGPUSHONLY", 32)
    ∷ (codes "MINIMALDATA", 64)
    ∷ (codes "DISCOURAGE_UPGRADABLE_NOPS", 128)
    ∷ (codes "CLEANSTACK", 256)
    ∷ (codes "CHECKLOCKTIMEVERIFY", 512)
    ∷ (codes "CHECKSEQUENCEVERIFY", 1024)
    ∷ (codes "WITNESS", 2048)
    ∷ (codes "DISCOURAGE_UPGRADABLE_WITNESS_PROGRAM", 4096)
    ∷ (codes "MINIMALIF", 8192)
    ∷ (codes "NULLFAIL", 16384)
    ∷ (codes "WITNESS_PUBKEYTYPE", 32768)
    ∷ (codes "CONST_SCRIPTCODE", 65536)
    ∷ (codes "TAPROOT", 131072)
    ∷ []

-- `cls[token]`
unfoldable pub member_named : Text → List (Text × ℕ) → Option ℕ
member_named token [] = none
member_named token ((name, value) ∷ others) =
    if bytes_eq name token then some value else member_named token others

-- `for member in cls: result |= member`
unfoldable pub with_members : ℕ → List (Text × ℕ) → ℕ
with_members result [] = result
with_members result ((name, value) ∷ others) = with_members (bit_or result value) others

-- A part before the parts behind it, and a character before the first of them.
abbrev pub put_part : Bool → ℕ → Text × List Text → Text × List Text
put_part true c (part, parts) = ([], part ∷ parts)
put_part false c (part, parts) = (c ∷ part, parts)

unfoldable pub comma_parts : Text → Text × List Text
comma_parts [] = ([], [])
comma_parts (c ∷ text) = put_part (c == 44) c (comma_parts text)

-- `n.split(",")`
unfoldable pub split_commas : Text → List Text
split_commas text = (comma_parts text).0 ∷ (comma_parts text).1

-- `str.strip`: the spaces before, and those behind.
unfoldable pub skip_spaces : Text → Text
skip_spaces [] = []
skip_spaces (c ∷ text) = let rest = skip_spaces text in if is_space c then rest else c ∷ text

abbrev pub unless_spaces : Bool → ℕ → Text → Text
unless_spaces true c [] = []
unless_spaces true c (d ∷ text) = c ∷ d ∷ text
unless_spaces false c text = c ∷ text

unfoldable pub drop_spaces : Text → Text
drop_spaces [] = []
drop_spaces (c ∷ text) = unless_spaces (is_space c) c (drop_spaces text)

unfoldable pub strip : Text → Text
strip text = drop_spaces (skip_spaces text)

-- `token[len("SCRIPT_VERIFY_"):]`
unfoldable pub drop_text : Text → Text → Text
drop_text [] text = text
drop_text (c ∷ start) [] = []
drop_text (c ∷ start) (d ∷ text) = drop_text start text

abbrev pub prefix : Text
prefix = codes "SCRIPT_VERIFY_"

abbrev pub with_member : ℕ → Option ℕ → Result ℕ
with_member result none = err Error.value_error
with_member result (some value) = ok (bit_or result value)

-- One round of the inner loop, on a token that is stripped and in upper case.
unfoldable pub add_flag : ℕ → Text → Result ℕ
add_flag result [] = ok result
add_flag result (c ∷ text) =
    let token = c ∷ text in
    if bytes_eq token (codes "ALL")
    then ok (with_members result members)
    else (if bytes_eq token (codes "STANDARD")
        then ok (with_members result members)
        else with_member result (
            member_named (if starts_with prefix token then drop_text prefix token else token)
              ((codes "NONE", 0) ∷ members)))

-- An exception ends the loop.
abbrev pub and_then : Result ℕ → (ℕ → Result ℕ) → Result ℕ
and_then (err e) others = err e
and_then (ok result) others = others result

-- The inner loop, and the outer one.
unfoldable pub add_tokens : ℕ → List Text → Result ℕ
add_tokens result [] = ok result
add_tokens result (token ∷ tokens) =
    and_then (add_flag result (to_upper (strip token))) (λ more. add_tokens more tokens)

unfoldable pub add_texts : ℕ → List Text → Result ℕ
add_texts result [] = ok result
add_texts result (n ∷ names) =
    and_then (add_tokens result (split_commas n)) (λ more. add_texts more names)

unfoldable pub from_names : List Text → Result ℕ
from_names names = add_texts 0 names

-- `[m.name for m in type(self) if m and m.name and m & self]`
unfoldable pub names_of : ℕ → List (Text × ℕ) → List Text
names_of flags [] = []
names_of flags ((name, value) ∷ others) =
    let rest = names_of flags others in if not (bit_and value flags == 0) then name ∷ rest else rest

unfoldable pub names : ℕ → List Text
names flags = names_of flags members
