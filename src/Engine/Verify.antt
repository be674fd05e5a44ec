-- ===== src/Engine/Verify.antt =====
-- `verify` and the SegWit helpers of class ScriptEngine (engine/engine.py).
pub mod Total
pub mod History
pub mod Refuses
use bitcoin_script.Prelude.{
  ℕ, Bool, true, false, not, ◌&&◌, ◌||◌, Option, none, some, List, [], ◌∷◌, reverse, Bytes, length,
  drop, byte_at, last_byte, bytes_eq, if◌then◌else◌, ◌==◌, ltb, bit_and,
}
use bitcoin_script.Prelude.Int.{ℤ, pos}
use bitcoin_script.Errors.{Error, is_script_error, Result, ok, err}
use bitcoin_script.Engine.Stack.{ScriptStack, empty_stack}
use bitcoin_script.Engine.Number.{element_to_bool}
use bitcoin_script.Engine.Library.{Library}
use bitcoin_script.Engine.Run.{Context, run_script, max_script_size}
use bitcoin_script.ScriptTypes.P2wpkh.{witness_to_script_code}

unfoldable pub is_p2sh : Bytes → Bool
is_p2sh r =
    (length r == 23) && (byte_at r 0 == 0xa9) && (byte_at r 1 == 0x14) && (last_byte r == 0x87)

unfoldable pub is_p2wpkh : Bytes → Bool
is_p2wpkh r = (length r == 22) && (byte_at r 0 == 0x00) && (byte_at r 1 == 0x14)

unfoldable pub is_p2wsh : Bytes → Bool
is_p2wsh r = (length r == 34) && (byte_at r 0 == 0x00) && (byte_at r 1 == 0x20)

-- The attributes of a ScriptEngine.
pub record Engine (Tx : Type 0) : Type 0 where
  pub flags : ℕ
  pub stack : ScriptStack
  pub tx : Option Tx
  pub input_index : ℤ
  pub input_value : ℤ
  pub script_code : Bytes
  pub sigversion : ℕ

-- ScriptVerifyFlag.P2SH and ScriptVerifyFlag.WITNESS
abbrev pub flag_p2sh : ℕ
flag_p2sh = 1

abbrev pub flag_witness : ℕ
flag_witness = 2048

-- `bool(self._flags & flag)`
abbrev pub has_flag : ℕ → ℕ → Bool
has_flag flags flag = not (bit_and flags flag == 0)

-- `self._stack` is not empty and its top element is true.
abbrev pub top_is_true : List Bytes → Bool
top_is_true [] = false
top_is_true (top ∷ below) = element_to_bool top

module _ {Tx : Type 0} where
  abbrev pub context : Engine Tx → Context Tx
  context e = record {
    tx = e.tx;
    input_index = e.input_index;
    input_value = e.input_value;
    script_code = e.script_code;
    sigversion = e.sigversion;
  }

  unfoldable pub reset : Engine Tx → Engine Tx
  reset e = record e {
    stack = empty_stack;
    tx = none;
    input_index = pos 0;
    input_value = pos 0;
    script_code = [];
    sigversion = 0;
  }

  -- The engine behind the first assignments of `verify`.
  abbrev pub started : Engine Tx → Option Tx → ℤ → ℤ → Engine Tx
  started e tx input_index input_value = record (reset e) {
    tx = tx;
    input_index = input_index;
    input_value = input_value;
  }

  -- `return not self._stack.is_empty() and element_to_bool(self._stack.peek())`
  abbrev pub top_result : Engine Tx → Result Bool × Engine Tx
  top_result e = (ok (top_is_true e.stack.main), e)

  abbrev pub return_false : Engine Tx → Result Bool × Engine Tx
  return_false e = (ok false, e)

module _ {Tx : Type 0} (lib : Library Tx) where
  -- `try: self._run_script(script)`, `except ScriptError: return False`, and then the rest.
  after_run :
      Result (Unit {0})
      → Engine Tx
      → (Engine Tx → Result Bool × Engine Tx)
      → Result Bool × Engine Tx
  after_run (ok u) e rest = rest e
  after_run (err x) e rest = if is_script_error x then return_false e else (err x, e)

  unfoldable pub try_run :
      Engine Tx → Bytes → (Engine Tx → Result Bool × Engine Tx) → Result Bool × Engine Tx
  unfolding after_run
  try_run e script rest =
      let (r, s) = run_script lib (context e) script e.stack in
      after_run r (record e { stack = s }) rest

  -- `finally: self._sigversion = _SIGVERSION_BASE`, on every way out of the `try`.
  reset_sigversion : Result Bool × Engine Tx → Result Bool × Engine Tx
  reset_sigversion (r, e) = (r, record e { sigversion = 0 })

  run_witness : Engine Tx → List Bytes → Bytes → Result Bool × Engine Tx
  unfolding reset_sigversion
  run_witness e items script = reset_sigversion (
      try_run
        (record e {
          stack = record { main = items; alt = [] };
          script_code = script;
          sigversion = 1;
        })
        script top_result)

  run_script_code : Engine Tx → List Bytes → Result Bytes → Result Bool × Engine Tx
  unfolding run_witness
  run_script_code e items (ok script_code) = run_witness e items script_code
  run_script_code e items (err x) = (err x, e)

  -- Behind the digest of the key.
  with_digest : Engine Tx → Bytes → Bytes → Bytes → Option Bytes → Result Bool × Engine Tx
  unfolding run_script_code
  with_digest e pubkey_hash sig pubkey none = (err Error.value_error, e)
  with_digest e pubkey_hash sig pubkey (some actual_hash) =
      if not (bytes_eq actual_hash pubkey_hash)
      then return_false e
      else run_script_code e (pubkey ∷ sig ∷ []) (witness_to_script_code pubkey_hash)

  -- `_verify_p2wpkh`; the pushed items have the public key on top.
  unfoldable pub verify_p2wpkh : Engine Tx → Bytes → List Bytes → Result Bool × Engine Tx
  unfolding with_digest
  verify_p2wpkh e script_pubkey [] = return_false e
  verify_p2wpkh e script_pubkey (sig ∷ []) = return_false e
  verify_p2wpkh e script_pubkey (sig ∷ pubkey ∷ []) =
      with_digest e (drop 2 script_pubkey) sig pubkey
        (lib.hashes.ripemd160 (lib.hashes.sha256 pubkey))
  verify_p2wpkh e script_pubkey (sig ∷ pubkey ∷ more ∷ rest) = return_false e

  -- `_verify_p2wsh`, over the witness read from its end: the script, then the items from the top.
  verify_p2wsh_from : Engine Tx → Bytes → List Bytes → Result Bool × Engine Tx
  unfolding run_witness
  verify_p2wsh_from e script_pubkey [] = return_false e
  verify_p2wsh_from e script_pubkey (witness_script ∷ items) =
      if not (bytes_eq (lib.hashes.sha256 witness_script) (drop 2 script_pubkey))
      then return_false e
      else run_witness e items witness_script

  unfoldable pub verify_p2wsh : Engine Tx → Bytes → List Bytes → Result Bool × Engine Tx
  unfolding verify_p2wsh_from
  verify_p2wsh e script_pubkey witness = verify_p2wsh_from e script_pubkey (reverse witness)

  -- The redeem script against the stack that scriptSig left below it.
  run_redeem : Engine Tx → Bool → Bytes → List Bytes → List Bytes → Result Bool × Engine Tx
  run_redeem e witness_flag redeem below witness =
      if witness_flag && is_p2wpkh redeem
      then verify_p2wpkh e redeem witness
      else (if witness_flag && is_p2wsh redeem
          then verify_p2wsh e redeem witness
          else try_run
              (record e {
                stack = record { main = below; alt = e.stack.alt };
                script_code = redeem;
              })
              redeem top_result)

  after_pubkey : Engine Tx → Bool → List Bytes → List Bytes → Result Bool × Engine Tx
  unfolding run_redeem
  after_pubkey e witness_flag [] witness = (ok true, e)
  after_pubkey e witness_flag (redeem ∷ below) witness =
      run_redeem e witness_flag redeem below witness

  -- The legacy path: scriptSig, scriptPubKey, then the redeem script if P2SH is active. The saved
  -- stack is empty unless it is.
  unfoldable pub verify_legacy : Engine Tx → Bytes → Bytes → List Bytes → Result Bool × Engine Tx
  unfolding after_pubkey
  verify_legacy e script_sig script_pubkey witness =
      let witness_flag = has_flag e.flags flag_witness in
      let p2sh_active = has_flag e.flags flag_p2sh && is_p2sh script_pubkey in
      try_run (record e { script_code = script_pubkey }) script_sig
        λ e₁.
          let saved_stack = if p2sh_active then e₁.stack.main else [] in
          try_run (record e₁ { script_code = script_pubkey }) script_pubkey
            λ e₂.
              if not (top_is_true e₂.stack.main)
              then return_false e₂
              else after_pubkey e₂ witness_flag saved_stack witness

  -- `verify`; a `witness` of None is the empty list.
  unfoldable pub verify :
      Engine Tx → Bytes → Bytes → Option Tx → ℤ → ℤ → List Bytes → Result Bool × Engine Tx
  unfolding reset
  verify e script_sig script_pubkey tx input_index input_value witness =
      let e' = started e tx input_index input_value in
      let witness_flag = has_flag e.flags flag_witness in
      let has_sig = not (length script_sig == 0) in
      if ltb max_script_size (length script_sig) || ltb max_script_size (length script_pubkey)
      then return_false e'
      else (if witness_flag && is_p2wpkh script_pubkey
          then (if has_sig then return_false e' else verify_p2wpkh e' script_pubkey witness)
          else (if witness_flag && is_p2wsh script_pubkey
              then (if has_sig then return_false e' else verify_p2wsh e' script_pubkey witness)
              else verify_legacy e' script_sig script_pubkey witness))

  -- `execute`: an exception of the script goes on to the caller.
  unfoldable pub execute : Engine Tx → Bytes → Result Bool × Engine Tx
  execute e script =
      let (r, s) = run_script lib (context e) script e.stack in
      let e' = record e { stack = s } in elim r [ ok _ ↦ top_result e' | err x ↦ (err x, e') ]
