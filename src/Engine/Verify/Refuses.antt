-- ===== src/Engine/Verify/Refuses.antt =====
-- `verify` with the iterator that python-bitcoinlib documents.
use bitcoin_script.Prelude.{
  ℕ, zero, suc, ◌+◌, ◌<◌, ◌≡◌, ◌≢◌, refl, Bool, true, false, not, ◌&&◌, ◌||◌, Option, List, [], ◌∷◌,
  Bytes, IsByte, All, length, drop, bytes_eq, ◌==◌, ltb, arith, Bool-cases, Option-cases, inl, inr,
}
use bitcoin_script.Prelude.Int.{ℤ}
use bitcoin_script.Errors.{is_script_error, Result, ok, err}
use bitcoin_script.Engine.Stack.{ScriptStack}
use bitcoin_script.Engine.Number.{element_to_bool, bool_from}
use bitcoin_script.Engine.Outcome.{Returns}
use bitcoin_script.Engine.Library.{Library, Yielded, byte_string, integer, triple}
use bitcoin_script.Engine.Run.{
  Context, zero_bytes, unpack, run_items, run_script, raise_if, as_script_error, convert_result,
  max_script_size,
}
use bitcoin_script.Engine.Run.Cooked.{IsCooked, cooked_outcome, run_script-cooked_outcome}
use bitcoin_script.Engine.Verify.{
  Engine, context, started, has_flag, flag_witness, top_is_true, top_result, after_run, try_run,
  reset_sigversion, run_witness, run_script_code, with_digest, verify_p2wpkh, verify_legacy, verify,
  is_p2wpkh, is_p2wsh,
}
use bitcoin_script.Engine.Verify.Total.{and_right, script_code_exists}

-- What python-bitcoinlib documents of a `for` loop over a CScript: it yields byte strings and integers,
-- and an integer, a CScriptOp, for an opcode above OP_PUSHDATA4.
pub record IsDocumented {Tx : Type 0} (lib : Library Tx) : Type 0 where
  pub cooked : (script : Bytes) → All IsByte script → IsCooked (lib.iterate script).items
  pub opcode_first :
      (op : ℕ) (rest : Bytes)
      → 0x4e < op
      → op < 256
      → (n : ℕ) × (objects : List Yielded) × ((lib.iterate (op ∷ rest)).items ≡ integer n ∷ objects)

abbrev AllFalse : List Bytes → Type 0
AllFalse main = All (λ (x : Bytes). element_to_bool x ≡ false) main

zero_bytes-false : (len i n : ℕ) → bool_from len i (zero_bytes n) ≡ false
unfolding bool_from
zero_bytes-false len i zero = refl
zero_bytes-false len i (suc n) = zero_bytes-false len (i + 1) n

cooked_outcome-AllFalse :
    (objects : List Yielded) (fails : Bool) (main alt : List Bytes)
    → AllFalse main
    → Returns (λ _ s. AllFalse s.main) (cooked_outcome objects fails main alt)
unfolding cooked_outcome element_to_bool
cooked_outcome-AllFalse [] true main alt h = tt
cooked_outcome-AllFalse [] false main alt h = h
cooked_outcome-AllFalse (byte_string [] ∷ objects) fails main alt h = tt
cooked_outcome-AllFalse (byte_string (a ∷ []) ∷ objects) fails main alt h = tt
cooked_outcome-AllFalse (byte_string (a ∷ b ∷ []) ∷ objects) fails main alt h = tt
cooked_outcome-AllFalse (byte_string (a ∷ b ∷ c ∷ []) ∷ objects) fails main alt h =
    cooked_outcome-AllFalse objects fails (zero_bytes b ∷ main) alt
      (zero_bytes-false (length (zero_bytes b)) 0 b, h)
cooked_outcome-AllFalse (byte_string (a ∷ b ∷ c ∷ d ∷ bytes) ∷ objects) fails main alt h = tt
cooked_outcome-AllFalse (integer n ∷ objects) fails main alt h = tt
cooked_outcome-AllFalse (triple opcode payload ∷ objects) fails main alt h = tt

module _ {Tx : Type 0} (lib : Library Tx) where
  -- An answer that is not true.
  abbrev Untrue : Result Bool × Engine Tx → Type 0
  Untrue (ok true, e) = ⊥
  Untrue (ok false, e) = Unit {0}
  Untrue (err x, e) = Unit {0}

  script_AllFalse :
      IsDocumented lib
      → (ctx : Context Tx) (script : Bytes) (s : ScriptStack) → All IsByte script
      → AllFalse s.main
      → Returns (λ _ s'. AllFalse s'.main) (run_script lib ctx script s)
  unfolding run_script raise_if
  script_AllFalse documented ctx script s bytes h =
      elim (Bool-cases (ltb max_script_size (length script))) [
        | inl large ↦ rw (run_script, large) tt
        | inr fits ↦
            rw
              (run_script-cooked_outcome lib ctx script s.main s.alt (ground (arith, fits))
                (documented.cooked script bytes))
              (cooked_outcome-AllFalse (lib.iterate script).items (lib.iterate script).fails s.main
                s.alt h)
      ]

  -- A script that begins with an opcode does not run to its end.
  script_opcode :
      (ctx : Context Tx) (script : Bytes) (s : ScriptStack) (n : ℕ) (objects : List Yielded)
      → (lib.iterate script).items ≡ integer n ∷ objects
      → Returns (λ _ _. ⊥) (run_script lib ctx script s)
  unfolding run_script raise_if run_items unpack as_script_error convert_result
  script_opcode ctx script s n objects first =
      elim (Bool-cases (ltb max_script_size (length script))) [
        | inl large ↦ rw (run_script, large) tt
        | inr fits ↦ rw (run_script, fits, first) tt
      ]

  after_run-Untrue :
      (P : ScriptStack → Type 0) (r : Result (Unit {0})) (s : ScriptStack) (e : Engine Tx)
      (rest : Engine Tx → Result Bool × Engine Tx)
      → Returns (λ _ s. P s) (r, s)
      → ((e : Engine Tx) → P e.stack → Untrue (rest e))
      → Untrue (after_run lib r (record e { stack = s }) rest)
  unfolding after_run
  after_run-Untrue P (ok u) s e rest h k = k (record e { stack = s }) h
  after_run-Untrue P (err x) s e rest h k = elim (Bool-cases (is_script_error x)) [
    | inl caught ↦ rw (caught) tt
    | inr raised ↦ rw (raised) tt
  ]

  try_run-Untrue :
      (P : ScriptStack → Type 0) (e : Engine Tx) (script : Bytes)
      (rest : Engine Tx → Result Bool × Engine Tx)
      → Returns (λ _ s. P s) (run_script lib (context e) script e.stack)
      → ((e : Engine Tx) → P e.stack → Untrue (rest e))
      → Untrue (try_run lib e script rest)
  unfolding try_run
  try_run-Untrue P e script rest h k =
      let p = run_script lib (context e) script e.stack in after_run-Untrue P p.0 p.1 e rest h k

  verify_legacy-Untrue :
      IsDocumented lib
      → (e : Engine Tx) (script_sig script_pubkey : Bytes) (witness : List Bytes)
      → All IsByte script_sig
      → All IsByte script_pubkey
      → AllFalse e.stack.main
      → Untrue (verify_legacy lib e script_sig script_pubkey witness)
  unfolding verify_legacy
  verify_legacy-Untrue documented e script_sig script_pubkey witness sig_bytes bytes h =
      try_run-Untrue (λ s. AllFalse s.main) _ script_sig _
        (script_AllFalse documented _ script_sig _ sig_bytes h)
        λ e₁ h₁.
          try_run-Untrue (λ s. AllFalse s.main) _ script_pubkey _
            (script_AllFalse documented _ script_pubkey _ bytes h₁)
            λ e₂ h₂. rw (top_false e₂.stack.main h₂) tt
    where
      top_false : (main : List Bytes) → AllFalse main → top_is_true main ≡ false
      top_false [] h = refl
      top_false (top ∷ below) h = h.0

  verify_p2wpkh-Untrue :
      IsDocumented lib
      → (e : Engine Tx) (script_pubkey : Bytes) (witness : List Bytes)
      → is_p2wpkh script_pubkey ≡ true
      → Untrue (verify_p2wpkh lib e script_pubkey witness)
  unfolding verify_p2wpkh with_digest run_script_code run_witness reset_sigversion
  verify_p2wpkh-Untrue documented e script_pubkey [] h = tt
  verify_p2wpkh-Untrue documented e script_pubkey (sig ∷ []) h = tt
  verify_p2wpkh-Untrue documented e script_pubkey (sig ∷ pubkey ∷ []) h =
      let (code, exists) = script_code_exists lib script_pubkey h in
      let (n, objects, first) = documented.opcode_first 0x76 code (omega arith) (omega arith) in
      elim (Option-cases (lib.hashes.ripemd160 (lib.hashes.sha256 pubkey))) [
        | inl missing ↦ rw (missing) tt
        | inr (digest, there) ↦ elim (Bool-cases (bytes_eq digest (drop 2 script_pubkey))) [
          | inl good ↦
              rw (there, good, exists)
                (kept _ (
                  try_run-Untrue (λ _. ⊥) _ (0x76 ∷ code) top_result
                    (script_opcode _ (0x76 ∷ code) _ n objects first) λ e' none. absurd none))
          | inr bad ↦ rw (there, bad) tt
        ]
      ]
    where
      kept : (p : Result Bool × Engine Tx) → Untrue p → Untrue (reset_sigversion lib p)
      kept (ok true, e') h = h
      kept (ok false, e') h = h
      kept (err x, e') h = h
  verify_p2wpkh-Untrue documented e script_pubkey (sig ∷ pubkey ∷ more ∷ rest) h = tt

  not_true : (p : Result Bool × Engine Tx) → Untrue p → p.0 ≢ ok true
  not_true (ok true, e) u h = u
  not_true (ok false, e) u h = absurd (cc h)
  not_true (err x, e) u h = absurd (cc h)

  verify-Untrue :
      IsDocumented lib
      → (e : Engine Tx) (script_sig script_pubkey : Bytes) (tx : Option Tx)
        (input_index input_value : ℤ) (witness : List Bytes)
      → All IsByte script_sig
      → All IsByte script_pubkey
      → (has_flag e.flags flag_witness && is_p2wsh script_pubkey) ≡ false
      → Untrue (verify lib e script_sig script_pubkey tx input_index input_value witness)
  unfolding verify
  verify-Untrue documented e script_sig script_pubkey tx input_index input_value witness sig_bytes
        bytes other =
      let e' = started e tx input_index input_value in
      let flag = has_flag e.flags flag_witness in
      let large =
        ltb max_script_size (length script_sig) || ltb max_script_size (length script_pubkey) in
      elim (Bool-cases large) [
        | inl l ↦ rw (l) tt
        | inr f ↦ elim (Bool-cases (flag && is_p2wpkh script_pubkey)) [
          | inl k ↦ elim (Bool-cases (not (length script_sig == 0))) [
            | inl s ↦ rw (f, k, s) tt
            | inr n ↦
                rw (f, k, n)
                  (verify_p2wpkh-Untrue documented e' script_pubkey witness (and_right flag _ k))
          ]
          | inr o ↦
              rw (f, o, other)
                (verify_legacy-Untrue documented e' script_sig script_pubkey witness sig_bytes bytes
                  tt)
        ]
      ]

  -- If the iterator of CScript yields what python-bitcoinlib documents, then `verify` answers true for
  -- no output, whatever its script, its witness and its flags, but for a P2WSH output under the WITNESS
  -- flag: the loop of the engine unpacks every object into three, which integers and byte strings of
  -- other lengths refuse, and byte strings of three bytes are pushed as zero bytes.
  pub verify_refuses :
      IsDocumented lib
      → (e : Engine Tx) (script_sig script_pubkey : Bytes) (tx : Option Tx)
        (input_index input_value : ℤ) (witness : List Bytes)
      → All IsByte script_sig
      → All IsByte script_pubkey
      → (has_flag e.flags flag_witness && is_p2wsh script_pubkey) ≡ false
      → (verify lib e script_sig script_pubkey tx input_index input_value witness).0 ≢ ok true
  verify_refuses documented e script_sig script_pubkey tx input_index input_value witness sig_bytes
        bytes other =
      not_true _ (
        verify-Untrue documented e script_sig script_pubkey tx input_index input_value witness
          sig_bytes bytes other)
