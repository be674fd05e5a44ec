-- ===== src/Engine/Verify/Total.antt =====
-- Which exceptions leave `verify`.
use bitcoin_script.Prelude.{
  ◌≡◌, refl, ap, Bool, true, false, not, ◌&&◌, ◌||◌, Option, List, [], ◌∷◌, ◌++◌, reverse, Bytes,
  drop, length, length-drop, bytes_eq, ◌==◌, ltb, arith, Bool-cases, Option-cases, none, ◌⊎◌, inl,
  inr,
}
use bitcoin_script.Prelude.Int.{ℤ}
use bitcoin_script.Errors.{Error, Result, ok, err}
use bitcoin_script.Engine.Stack.{ScriptStack}
use bitcoin_script.Engine.Outcome.{Raises}
use bitcoin_script.Engine.Library.{Library}
use bitcoin_script.Engine.Run.{run_script, max_script_size}
use bitcoin_script.Engine.Run.Exceptions.{IsScriptError, run_script-Raises}
use bitcoin_script.Engine.Verify.{
  Engine, context, started, has_flag, flag_witness, top_is_true, top_result, after_run, try_run,
  reset_sigversion, run_witness, run_script_code, verify_p2wpkh, verify_p2wsh_from, verify_p2wsh,
  with_digest, run_redeem, after_pubkey, verify_legacy, verify, is_p2wpkh, is_p2wsh,
}
use bitcoin_script.ScriptTypes.P2wpkh.{witness_to_script_code}

pub and_right : (a b : Bool) → a && b ≡ true → b ≡ true
and_right true b h = h
and_right false b h = cc

module _ {Tx : Type 0} (lib : Library Tx) where
  -- An answer, or the ValueError of a missing digest.
  abbrev IsAnswer : Result Bool × Engine Tx → Type 0
  IsAnswer (ok b, e) = Unit {0}
  IsAnswer (err x, e) =
      (key : Bytes) × (x ≡ Error.value_error)
      × (lib.hashes.ripemd160 (lib.hashes.sha256 key) ≡ none)

  after_run-IsAnswer :
      (r : Result (Unit {0})) (s : ScriptStack) (e : Engine Tx)
      (rest : Engine Tx → Result Bool × Engine Tx)
      → Raises IsScriptError (r, s)
      → ((e : Engine Tx) → IsAnswer (rest e))
      → IsAnswer (after_run lib r e rest)
  unfolding after_run
  after_run-IsAnswer (ok u) s e rest h k = k e
  after_run-IsAnswer (err x) s e rest h k = rw h tt

  try_run-IsAnswer :
      (e : Engine Tx) (script : Bytes) (rest : Engine Tx → Result Bool × Engine Tx)
      → ((e : Engine Tx) → IsAnswer (rest e))
      → IsAnswer (try_run lib e script rest)
  unfolding try_run
  try_run-IsAnswer e script rest k =
      let p = run_script lib (context e) script e.stack in
      after_run-IsAnswer p.0 p.1 (record e { stack = p.1 }) rest
        (run_script-Raises lib (context e) script e.stack) k

  run_witness-IsAnswer :
      (e : Engine Tx) (items : List Bytes) (script : Bytes)
      → IsAnswer (run_witness lib e items script)
  unfolding run_witness
  run_witness-IsAnswer e items script = kept _ (try_run-IsAnswer _ script top_result λ e'. tt)
    where
      kept : (p : Result Bool × Engine Tx) → IsAnswer p → IsAnswer (reset_sigversion lib p)
      kept (ok b, e') h = h
      kept (err x, e') h = h

  verify_p2wsh-IsAnswer :
      (e : Engine Tx) (script_pubkey : Bytes) (witness : List Bytes)
      → IsAnswer (verify_p2wsh lib e script_pubkey witness)
  unfolding verify_p2wsh
  verify_p2wsh-IsAnswer e script_pubkey witness = go (reverse witness)
    where
      go : (items : List Bytes) → IsAnswer (verify_p2wsh_from lib e script_pubkey items)
      go [] = tt
      go (script ∷ items) =
          elim (Bool-cases (bytes_eq (lib.hashes.sha256 script) (drop 2 script_pubkey))) [
            | inl good ↦ rw good (run_witness-IsAnswer e items script)
            | inr bad ↦ rw bad tt
          ]

  pub script_code_exists :
      (script_pubkey : Bytes)
      → is_p2wpkh script_pubkey ≡ true
      → (code : Bytes) × (witness_to_script_code (drop 2 script_pubkey) ≡ ok (0x76 ∷ code))
  unfolding is_p2wpkh witness_to_script_code
  script_code_exists script_pubkey h = (
    (0xa9 ∷ 0x14 ∷ []) ++ (drop 2 script_pubkey ++ (0x88 ∷ 0xac ∷ [])),
    ground (arith, length-drop 2 script_pubkey),
  )

  verify_p2wpkh-IsAnswer :
      (e : Engine Tx) (script_pubkey : Bytes) (witness : List Bytes)
      → is_p2wpkh script_pubkey ≡ true
      → IsAnswer (verify_p2wpkh lib e script_pubkey witness)
  unfolding verify_p2wpkh with_digest run_script_code
  verify_p2wpkh-IsAnswer e script_pubkey [] h = tt
  verify_p2wpkh-IsAnswer e script_pubkey (sig ∷ []) h = tt
  verify_p2wpkh-IsAnswer e script_pubkey (sig ∷ pubkey ∷ []) h =
      let (code, exists) = script_code_exists script_pubkey h in
      elim (Option-cases (lib.hashes.ripemd160 (lib.hashes.sha256 pubkey))) [
        | inl missing ↦ rw (missing) (pubkey, refl, missing)
        | inr (digest, there) ↦ elim (Bool-cases (bytes_eq digest (drop 2 script_pubkey))) [
          | inl good ↦
              rw (there, good, exists) (run_witness-IsAnswer e (pubkey ∷ sig ∷ []) (0x76 ∷ code))
          | inr bad ↦ rw (there, bad) tt
        ]
      ]
  verify_p2wpkh-IsAnswer e script_pubkey (sig ∷ pubkey ∷ more ∷ rest) h = tt

  run_redeem-IsAnswer :
      (e : Engine Tx) (witness_flag : Bool) (redeem : Bytes) (below witness : List Bytes)
      → IsAnswer (run_redeem lib e witness_flag redeem below witness)
  unfolding run_redeem
  run_redeem-IsAnswer e false redeem below witness = try_run-IsAnswer _ redeem top_result λ e'. tt
  run_redeem-IsAnswer e true redeem below witness = elim (Bool-cases (is_p2wpkh redeem)) [
    | inl key ↦ rw key (verify_p2wpkh-IsAnswer e redeem witness key)
    | inr other ↦ elim (Bool-cases (is_p2wsh redeem)) [
      | inl script ↦ rw (other, script) (verify_p2wsh-IsAnswer e redeem witness)
      | inr plain ↦ rw (other, plain) (try_run-IsAnswer _ redeem top_result λ e'. tt)
    ]
  ]

  after_pubkey-IsAnswer :
      (e : Engine Tx) (witness_flag : Bool) (saved_stack witness : List Bytes)
      → IsAnswer (after_pubkey lib e witness_flag saved_stack witness)
  unfolding after_pubkey
  after_pubkey-IsAnswer e witness_flag [] witness = tt
  after_pubkey-IsAnswer e witness_flag (redeem ∷ below) witness =
      run_redeem-IsAnswer e witness_flag redeem below witness

  verify_legacy-IsAnswer :
      (e : Engine Tx) (script_sig script_pubkey : Bytes) (witness : List Bytes)
      → IsAnswer (verify_legacy lib e script_sig script_pubkey witness)
  unfolding verify_legacy
  verify_legacy-IsAnswer e script_sig script_pubkey witness = try_run-IsAnswer _ script_sig _ λ e₁.
      try_run-IsAnswer _ script_pubkey _ λ e₂. elim (Bool-cases (top_is_true e₂.stack.main)) [
        | inl true_top ↦ rw true_top (after_pubkey-IsAnswer _ _ _ witness)
        | inr false_top ↦ rw false_top tt
      ]

  answer :
      (p : Result Bool × Engine Tx)
      → IsAnswer p
      → ((b : Bool) × (p.0 ≡ ok b))
        ⊎ ((key : Bytes) × (p.0 ≡ err Error.value_error)
            × (lib.hashes.ripemd160 (lib.hashes.sha256 key) ≡ none))
  answer (ok b, e) h = inl (b, refl)
  answer (err x, e) (key, raised, missing) = inr (key, ap err raised, missing)

  verify-IsAnswer :
      (e : Engine Tx) (script_sig script_pubkey : Bytes) (tx : Option Tx)
      (input_index input_value : ℤ) (witness : List Bytes)
      → IsAnswer (verify lib e script_sig script_pubkey tx input_index input_value witness)
  unfolding verify
  verify-IsAnswer e script_sig script_pubkey tx input_index input_value witness =
      let e' = started e tx input_index input_value in
      let flag = has_flag e.flags flag_witness in
      let has_sig = not (length script_sig == 0) in
      let large =
        ltb max_script_size (length script_sig) || ltb max_script_size (length script_pubkey) in
      elim (Bool-cases large) [
        | inl l ↦ rw l tt
        | inr f ↦ elim (Bool-cases (flag && is_p2wpkh script_pubkey)) [
          | inl k ↦ elim (Bool-cases has_sig) [
            | inl s ↦ rw (f, k, s) tt
            | inr n ↦
                rw (f, k, n) (verify_p2wpkh-IsAnswer e' script_pubkey witness (and_right flag _ k))
          ]
          | inr o ↦ elim (Bool-cases (flag && is_p2wsh script_pubkey)) [
            | inl w ↦ elim (Bool-cases has_sig) [
              | inl s ↦ rw (f, o, w, s) tt
              | inr n ↦ rw (f, o, w, n) (verify_p2wsh-IsAnswer e' script_pubkey witness)
            ]
            | inr y ↦ rw (f, o, y) (verify_legacy-IsAnswer e' script_sig script_pubkey witness)
          ]
        ]
      ]

  -- For all scripts, witnesses and transactions, whatever the script iterator, the keys and the
  -- signature hashes do, `verify` answers true or false, but for one exception: the ValueError of
  -- hashlib.new, where it has no RIPEMD-160 for the hash of a key.
  pub verify_answers :
      (e : Engine Tx) (script_sig script_pubkey : Bytes) (tx : Option Tx)
      (input_index input_value : ℤ) (witness : List Bytes)
      → let r = (verify lib e script_sig script_pubkey tx input_index input_value witness).0 in
        ((b : Bool) × (r ≡ ok b))
        ⊎ ((key : Bytes) × (r ≡ err Error.value_error)
            × (lib.hashes.ripemd160 (lib.hashes.sha256 key) ≡ none))
  verify_answers e script_sig script_pubkey tx input_index input_value witness =
      answer _ (verify-IsAnswer e script_sig script_pubkey tx input_index input_value witness)
