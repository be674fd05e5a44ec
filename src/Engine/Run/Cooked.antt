-- ===== src/Engine/Run/Cooked.antt =====
-- Scripts with the iterator that python-bitcoinlib documents, whose objects are byte strings and integers.
use bitcoin_script.Prelude.{
  ℕ, zero, suc, ◌≤◌, ◌≡◌, refl, ◌∙◌, ap, Bool, true, false, some, List, [], ◌∷◌, Bytes, All, IsByte,
  length, ltb, arith,
}
use bitcoin_script.Engine.Stack.{Error, Result, ok, err, ScriptStack, push, continue}
use bitcoin_script.Engine.Library.{Library, Yielded, byte_string, integer, triple}
use bitcoin_script.Engine.Run.{
  Context, Locals, locals, zero_bytes, unpack, executing, raise_if, run_item, run_items, run_script,
  as_script_error, convert_result, finish, max_script_size,
}

-- Byte strings and integers, and no triples.
abbrev pub IsCooked : List Yielded → Type 0
IsCooked [] = Unit {0}
IsCooked (byte_string bytes ∷ objects) = All IsByte bytes × IsCooked objects
IsCooked (integer n ∷ objects) = IsCooked objects
IsCooked (triple opcode payload ∷ objects) = ⊥

abbrev pub stacks : List Bytes → List Bytes → ScriptStack
stacks main alt = record { main = main; alt = alt }

-- What a script leaves: zero bytes for each push of three bytes, and a refusal at anything else.
unfoldable pub cooked_outcome :
    List Yielded → Bool → List Bytes → List Bytes → Result (Unit {0}) × ScriptStack
cooked_outcome [] false main alt = (ok tt, stacks main alt)
cooked_outcome [] true main alt = (err Error.script_invalid, stacks main alt)
cooked_outcome (byte_string (a ∷ b ∷ c ∷ []) ∷ objects) fails main alt =
    cooked_outcome objects fails (zero_bytes b ∷ main) alt
cooked_outcome (object ∷ objects) fails main alt = (err Error.script_invalid, stacks main alt)

length-zero_bytes : (n : ℕ) → length (zero_bytes n) ≡ n
length-zero_bytes zero = omega arith
length-zero_bytes (suc n) = omega (arith, length-zero_bytes n)

module _ {Tx : Type 0} (lib : Library Tx) (ctx : Context Tx) where
  run_item_zeros :
      (opcode n : ℕ) (main alt : List Bytes)
      → IsByte n
      → run_item lib ctx opcode (some (zero_bytes n)) (locals [] 0) (stacks main alt)
        ≡ (ok (locals [] 0), stacks (zero_bytes n ∷ main) alt)
  unfolding run_item executing push raise_if
  run_item_zeros opcode n main alt h = ground (arith, length-zero_bytes n)

  abbrev ended : Result Locals × ScriptStack → Result (Unit {0}) × ScriptStack
  ended p = continue (λ (l : Locals). finish l.cond_stack) (convert_result p)

  run_items-cooked_outcome :
      (objects : List Yielded) (fails : Bool) (main alt : List Bytes)
      → IsCooked objects
      → ended (run_items lib ctx objects fails (locals [] 0) (stacks main alt))
        ≡ cooked_outcome objects fails main alt
  unfolding run_items unpack convert_result finish cooked_outcome
  run_items-cooked_outcome [] true main alt c = refl
  run_items-cooked_outcome [] false main alt c = refl
  run_items-cooked_outcome (byte_string [] ∷ objects) fails main alt c = refl
  run_items-cooked_outcome (byte_string (a ∷ []) ∷ objects) fails main alt c = refl
  run_items-cooked_outcome (byte_string (a ∷ b ∷ []) ∷ objects) fails main alt c = refl
  run_items-cooked_outcome (byte_string (a ∷ b ∷ d ∷ []) ∷ objects) fails main alt c =
      ap (λ p. ended (continue (λ l. run_items lib ctx objects fails l) p))
        (run_item_zeros a b main alt c.0.1.0)
      ∙ run_items-cooked_outcome objects fails (zero_bytes b ∷ main) alt c.1
  run_items-cooked_outcome (byte_string (a ∷ b ∷ d ∷ x ∷ bytes) ∷ objects) fails main alt c = refl
  run_items-cooked_outcome (integer n ∷ objects) fails main alt c = refl
  run_items-cooked_outcome (triple opcode payload ∷ objects) fails main alt c = absurd c

  -- With byte strings and integers from the iterator, as python-bitcoinlib documents it, a script of at
  -- most 10,000 bytes runs to its end exactly if the iterator yields byte strings of three bytes alone
  -- and does not raise. Each of them pushes as many zero bytes as its second byte says, up to the first
  -- object that is anything else, at which the script is refused.
  pub run_script-cooked_outcome :
      (script : Bytes) (main alt : List Bytes)
      → length script ≤ max_script_size
      → IsCooked (lib.iterate script).items
      → run_script lib ctx script (stacks main alt)
        ≡ cooked_outcome (lib.iterate script).items (lib.iterate script).fails main alt
  unfolding run_script raise_if as_script_error
  run_script-cooked_outcome script main alt short cooked =
      let fits : ltb max_script_size (length script) ≡ false = ground (arith, short) in
      rw (fits) (
        run_items-cooked_outcome (lib.iterate script).items (lib.iterate script).fails main alt
          cooked)
