-- ===== src/Engine/Examples/Documented.antt =====
-- The theorems on the iterator that python-bitcoinlib documents, with one that decodes pushes of up to
-- 75 bytes.
use bitcoin_script.Prelude.{
  ℕ, zero, suc, ◌≡◌, ◌≢◌, refl, true, false, none, List, [], ◌∷◌, ◌&&◌, Bytes, IsByte, All, length,
  take, drop, if◌then◌else◌, leb, Bool-cases, inl, inr, arith,
}
use bitcoin_script.Prelude.Int.{pos}
use bitcoin_script.Errors.{ok}
use bitcoin_script.Engine.Library.{Library, Yielded, byte_string, integer}
use bitcoin_script.Engine.Run.{run_script}
use bitcoin_script.Engine.Run.Cooked.{IsCooked, cooked_outcome, stacks, run_script-cooked_outcome}
use bitcoin_script.Engine.Verify.{verify, is_p2wsh}
use bitcoin_script.Engine.Verify.Refuses.{IsDocumented, verify_refuses}
use bitcoin_script.Engine.Examples.{small_library, used_engine, base_context}

cooked_from : ℕ → Bytes → List Yielded
cooked_from zero script = []
cooked_from (suc fuel) [] = []
cooked_from (suc fuel) (op ∷ rest) =
    let pushed = cooked_from fuel (drop op rest) in
    let plain = cooked_from fuel rest in
    if leb 1 op && leb op 75 then byte_string (take op rest) ∷ pushed else integer op ∷ plain

abbrev library : Library (Unit {0})
library = record small_library {
  iterate = λ script. record { items = cooked_from (length script) script; fails = false };
}

All-take : (n : ℕ) (xs : Bytes) → All IsByte xs → All IsByte (take n xs)
All-take zero xs h = tt
All-take (suc n) [] h = tt
All-take (suc n) (x ∷ xs) (byte, h) = (byte, All-take n xs h)

All-drop : (n : ℕ) (xs : Bytes) → All IsByte xs → All IsByte (drop n xs)
All-drop zero xs h = h
All-drop (suc n) [] h = tt
All-drop (suc n) (x ∷ xs) (byte, h) = All-drop n xs h

cooked_from-IsCooked :
    (fuel : ℕ) (script : Bytes) → All IsByte script → IsCooked (cooked_from fuel script)
unfolding cooked_from
cooked_from-IsCooked zero script h = tt
cooked_from-IsCooked (suc fuel) [] h = tt
cooked_from-IsCooked (suc fuel) (op ∷ rest) (byte, h) = elim (Bool-cases (leb 1 op && leb op 75)) [
  | inl push ↦
      rw (cooked_from, push)
        (All-take op rest h, cooked_from-IsCooked fuel (drop op rest) (All-drop op rest h))
  | inr plain ↦ rw (cooked_from, plain) (cooked_from-IsCooked fuel rest h)
]

library-IsDocumented : IsDocumented library
unfolding cooked_from
library-IsDocumented = record {
  cooked = λ script h. cooked_from-IsCooked (length script) script h;
  opcode_first = λ op rest above byte.
      let plain : (leb 1 op && leb op 75) ≡ false = ground (arith, above) in
      (op, cooked_from (length rest) rest, rw (cooked_from, plain) refl);
}

-- A push of three bytes, 5 6 7, leaves six zero bytes, and OP_DUP behind it is refused.
run_script-cooked_outcome_example :
    run_script library base_context (3 ∷ 5 ∷ 6 ∷ 7 ∷ 0x76 ∷ []) (stacks [] [])
    ≡ cooked_outcome (byte_string (5 ∷ 6 ∷ 7 ∷ []) ∷ integer 0x76 ∷ []) false [] []
unfolding cooked_from
run_script-cooked_outcome_example =
    run_script-cooked_outcome library base_context (3 ∷ 5 ∷ 6 ∷ 7 ∷ 0x76 ∷ []) [] [] (omega arith)
      ((omega arith, (omega arith, (omega arith, tt))), tt)

-- OP_1 as the scriptPubKey.
verify_refuses_example :
    (verify library used_engine [] (0x51 ∷ []) none (pos 0) (pos 0) []).0 ≢ ok true
unfolding is_p2wsh
verify_refuses_example =
    verify_refuses library library-IsDocumented used_engine [] (0x51 ∷ []) none (pos 0) (pos 0) []
      tt (omega arith, tt) refl
