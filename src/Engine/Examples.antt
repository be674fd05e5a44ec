-- ===== src/Engine/Examples.antt =====
-- The theorems of the engine at concrete scripts, stacks and numbers. The library is a small one: the
-- digests cut a message or leave it, a signature is good when it repeats its key, and the iterator
-- yields triples by the tokens of ScriptUtils, as raw_iter does. In Documented, below, it yields byte
-- strings and integers.
mod Documented
use bitcoin_script.Prelude.{
  ℕ, ◌≡◌, ◌≤◌, ◌↔◌, ◌⊎◌, refl, Bool, true, false, none, some, List, [], ◌∷◌, ◌++◌, map, Bytes, take,
  bytes_eq, arith,
}
use bitcoin_script.Prelude.Int.{pos, negsuc}
use bitcoin_script.Errors.{Error, ok, err}
use bitcoin_script.ScriptUtils.Tokens.{Token, plain, data_push, tokens, tokens_from}
use bitcoin_script.ScriptUtils.Walk.{next_push}
use bitcoin_script.Engine.Stack.{ScriptStack, empty_stack, push, pop}
use bitcoin_script.Engine.Number.{
  element_to_bool, element_to_int, int_to_element, add_sign, magnitude_bytes,
}
use bitcoin_script.Engine.Number.RoundTrip.{element_to_int-int_to_element}
use bitcoin_script.Engine.Library.{Library, Hashes, Yielded, triple}
use bitcoin_script.Engine.Operations.CryptoOps.{check_signature, match_sigs, verify_sig}
use bitcoin_script.Engine.Operations.Shuffle as Shuffle
use bitcoin_script.Engine.Operations.Numeric as Numeric
use bitcoin_script.Engine.Operations.Multisig.{Matches, match_sigs_iff}
use bitcoin_script.Engine.Operations.Indexed as Indexed
use bitcoin_script.Engine.Operations.StackOps.{op_roll}
use bitcoin_script.Engine.Run.{
  Context, locals, unpack, executing, run_item, run_items, run_script, as_script_error,
  convert_result, raise_if, finish,
}
use bitcoin_script.Engine.Run.Skipped.{run_item_skipped}
use bitcoin_script.Engine.Run.Limits.{count_items, run_script-count}
use bitcoin_script.Engine.Run.Nesting.{nest_items, run_script-nests}
use bitcoin_script.Engine.Verify.{Engine, verify}
use bitcoin_script.Engine.Verify.Total.{verify_answers}
use bitcoin_script.Engine.Verify.History.{verify_history}

abbrev item_of : Token → Yielded
item_of (plain op) = triple op none
item_of (data_push op header size payload) = triple op (some payload)

abbrev pub small_hashes : Hashes
small_hashes = record { ripemd160 = λ m. some (take 20 m); sha1 = λ m. m; sha256 = λ m. m }

abbrev pub small_library : Library (Unit {0})
small_library = record {
  hashes = small_hashes;
  signature_hash = λ code tx i hashtype. some (hashtype ∷ code);
  signature_hash_v0 = λ code tx i hashtype value. some (hashtype ∷ code);
  key_verify = λ key hash sig. some (bytes_eq key sig);
  iterate = λ script. record { items = map item_of (tokens script); fails = false };
}

abbrev pub used_engine : Engine (Unit {0})
used_engine = record {
  flags = 2049;
  stack = record { main = (7 ∷ []) ∷ []; alt = [] };
  tx = none;
  input_index = pos 3;
  input_value = pos 0;
  script_code = [];
  sigversion = 0;
}

abbrev new_engine : Engine (Unit {0})
new_engine = record used_engine { stack = empty_stack; input_index = pos 0 }

abbrev pub base_context : Context (Unit {0})
base_context = record {
  tx = none;
  input_index = pos 0;
  input_value = pos 0;
  script_code = [];
  sigversion = 0;
}

verify_answers_example :
    let r =
      (verify small_library used_engine (0x51 ∷ 0x69 ∷ []) (0xac ∷ []) none (pos 0) (pos 0) []).0 in
    ((b : Bool) × (r ≡ ok b))
    ⊎ ((key : Bytes) × (r ≡ err Error.value_error)
        × (small_hashes.ripemd160 (small_hashes.sha256 key) ≡ none))
verify_answers_example =
    verify_answers small_library used_engine (0x51 ∷ 0x69 ∷ []) (0xac ∷ []) none (pos 0) (pos 0) []

verify_history_example :
    verify small_library used_engine (0x51 ∷ []) (0x51 ∷ 0x87 ∷ []) (some tt) (pos 1) (pos 2) []
    ≡ verify small_library new_engine (0x51 ∷ []) (0x51 ∷ 0x87 ∷ []) (some tt) (pos 1) (pos 2) []
verify_history_example =
    verify_history small_library used_engine new_engine (0x51 ∷ []) (0x51 ∷ 0x87 ∷ []) (some tt)
      (pos 1) (pos 2) [] refl

-- OP_1 OP_IF OP_2 OP_ELSE OP_RETURN OP_ENDIF
abbrev branches : Bytes
branches = 0x51 ∷ 0x63 ∷ 0x52 ∷ 0x67 ∷ 0x6a ∷ 0x68 ∷ []

branches_run : (run_script small_library base_context branches empty_stack).0 ≡ ok tt
unfolding run_script run_items unpack run_item raise_if as_script_error convert_result finish
    executing tokens tokens_from next_push int_to_element element_to_bool push pop add_sign
    magnitude_bytes
branches_run = refl

run_script-nests_example : nest_items (small_library.iterate branches).items 0 ≡ some 0
run_script-nests_example =
    run_script-nests small_library base_context branches empty_stack branches_run

run_script-count_example : count_items (small_library.iterate branches).items ≤ 201
run_script-count_example =
    run_script-count small_library base_context branches empty_stack branches_run

run_item_skipped_example :
    (run_item small_library base_context 0x6a none (locals (true ∷ false ∷ []) 2) empty_stack).1
    ≡ empty_stack
unfolding executing
run_item_skipped_example =
    run_item_skipped small_library base_context 0x6a none (true ∷ false ∷ []) 2 empty_stack refl

abbrev three : ScriptStack
three = record { main = (3 ∷ []) ∷ (2 ∷ []) ∷ (1 ∷ []) ∷ []; alt = (9 ∷ []) ∷ [] }

handler-rearranged_example :
    Shuffle.handler Shuffle.Shuffle.rot three
    ≡ (ok tt, Shuffle.rearranged Shuffle.Shuffle.rot three)
unfolding Shuffle.arity
handler-rearranged_example = Shuffle.handler-rearranged Shuffle.Shuffle.rot three (omega arith)

binary_handler-meaning_example :
    Numeric.Leaves
      (Numeric.binary_handler Numeric.Binary.sub)
      (Numeric.two (3 ∷ []) (0x81 ∷ []) ((1 ∷ []) ∷ []) [])
      ((1 ∷ []) ∷ [])
      (Numeric.binary_meaning Numeric.Binary.sub
        (element_to_int (0x81 ∷ []))
        (element_to_int (3 ∷ [])))
binary_handler-meaning_example =
    Numeric.binary_handler-meaning Numeric.Binary.sub (3 ∷ []) (0x81 ∷ []) ((1 ∷ []) ∷ []) []

element_to_int-int_to_element_example : element_to_int (int_to_element (negsuc 299)) ≡ negsuc 299
element_to_int-int_to_element_example = element_to_int-int_to_element (negsuc 299)

-- Two signatures and three keys; a signature is good for the key of the same bytes.
match_sigs_iff_example :
    (match_sigs bytes_eq ((1 ∷ []) ∷ (3 ∷ []) ∷ []) ((1 ∷ []) ∷ (2 ∷ []) ∷ (3 ∷ []) ∷ []) ≡ true)
    ↔ Matches bytes_eq ((1 ∷ []) ∷ (3 ∷ []) ∷ []) ((1 ∷ []) ∷ (2 ∷ []) ∷ (3 ∷ []) ∷ [])
match_sigs_iff_example =
    match_sigs_iff bytes_eq ((1 ∷ []) ∷ (3 ∷ []) ∷ []) ((1 ∷ []) ∷ (2 ∷ []) ∷ (3 ∷ []) ∷ [])

op_roll_wraps_example :
    op_roll (Indexed.on_top (4 ∷ []) ((7 ∷ []) ∷ (8 ∷ []) ∷ (9 ∷ []) ∷ []) [])
    ≡ (ok tt, Indexed.on_top (8 ∷ []) ((7 ∷ []) ∷ (9 ∷ []) ∷ []) [])
unfolding element_to_int
op_roll_wraps_example =
    Indexed.op_roll_wraps (4 ∷ []) (8 ∷ []) ((7 ∷ []) ∷ (8 ∷ []) ∷ (9 ∷ []) ∷ []) [] 1 refl refl
