-- ===== src/Engine/Operations/CryptoOps.antt =====
-- The hash handlers and the signature handlers of engine/operations.py.
use bitcoin_script.Prelude.{
  ℕ, zero, suc, Bool, true, false, Option, none, some, List, [], ◌∷◌, Bytes, last_byte, drop_last,
  if◌then◌else◌, ◌==◌,
}
use bitcoin_script.Prelude.Int.{ℤ, pos_part}
use bitcoin_script.Engine.Library.{Hashes, Library}
use bitcoin_script.Engine.Stack.{Error, Action, pure, raise, ◌>>=◌, ◌>>◌, push, pop}
use bitcoin_script.Engine.Number.{bool_to_element}
use bitcoin_script.Engine.Operations.StackOps.{op_verify}
use bitcoin_script.Engine.Operations.ArithOps.{pop_int, push_bool}

-- A digest, or the ValueError of `hashlib.new`.
abbrev pub digest_or_raise : Option Bytes → Action Bytes
digest_or_raise none = raise Error.value_error
digest_or_raise (some digest) = pure digest

module _ (h : Hashes) where
  unfoldable pub op_ripemd160 : Action (Unit {0})
  op_ripemd160 = do preimage ← pop; digest ← digest_or_raise (h.ripemd160 preimage); push digest

  unfoldable pub op_sha1 : Action (Unit {0})
  op_sha1 = do preimage ← pop; push (h.sha1 preimage)

  unfoldable pub op_sha256 : Action (Unit {0})
  op_sha256 = do preimage ← pop; push (h.sha256 preimage)

  unfoldable pub op_hash160 : Action (Unit {0})
  op_hash160 = do
    preimage ← pop
    digest ← digest_or_raise (h.ripemd160 (h.sha256 preimage))
    push digest

  unfoldable pub op_hash256 : Action (Unit {0})
  op_hash256 = do preimage ← pop; push (h.sha256 (h.sha256 preimage))

-- The arguments that the engine hands to the signature handlers. `sigversion` is 1 for SegWit v0.
pub record SigContext (Tx : Type 0) : Type 0 where
  pub tx : Tx
  pub input_index : ℤ
  pub input_value : ℤ
  pub script_code : Bytes
  pub sigversion : ℕ

module _ {Tx : Type 0} (lib : Library Tx) (ctx : SigContext Tx) where
  sighash : ℕ → Option Bytes
  sighash hashtype =
      if ctx.sigversion == 1
      then lib.signature_hash_v0 ctx.script_code ctx.tx ctx.input_index hashtype ctx.input_value
      else lib.signature_hash ctx.script_code ctx.tx ctx.input_index hashtype

  -- `except Exception: result = False`
  or_false : Option Bool → Bool
  or_false none = false
  or_false (some result) = result

  verify_hashed : Bytes → Bytes → Option Bytes → Bool
  verify_hashed der_sig pubkey none = false
  verify_hashed der_sig pubkey (some hash) = or_false (lib.key_verify pubkey hash der_sig)

  -- The `try` block over a signature that is not empty: its last byte is the hash type.
  unfoldable pub check_signature : Bytes → Bytes → Bool
  unfolding sighash or_false verify_hashed
  check_signature sig pubkey = verify_hashed (drop_last sig) pubkey (sighash (last_byte sig))

  push_checksig : Bytes → Bytes → Action (Unit {0})
  push_checksig pubkey [] = push []
  push_checksig pubkey (b ∷ sig) = push (bool_to_element (check_signature (b ∷ sig) pubkey))

  unfoldable pub op_checksig : Action (Unit {0})
  unfolding push_checksig
  op_checksig = do pubkey ← pop; sig ← pop; push_checksig pubkey sig

  unfoldable pub op_checksigverify : Action (Unit {0})
  op_checksigverify = do op_checksig; op_verify

  -- `_verify` of op_checkmultisig
  unfoldable pub verify_sig : Bytes → Bytes → Bool
  verify_sig [] pubkey = false
  verify_sig (b ∷ sig) pubkey = check_signature (b ∷ sig) pubkey

-- `[stack.pop() for _ in range(n)]`
unfoldable pub pop_many : ℕ → Action (List Bytes)
pop_many zero = pure []
pop_many (suc n) = do x ← pop; rest ← pop_many n; pure (x ∷ rest)

-- The inner `while`: the keys from `key_idx` on, and those that are left behind the match.
unfoldable pub find_key : (Bytes → Bytes → Bool) → Bytes → List Bytes → Option (List Bytes)
find_key ver sig [] = none
find_key ver sig (key ∷ keys) =
    let later = find_key ver sig keys in if ver sig key then some keys else later

-- The loop over the signatures.
unfoldable pub match_sigs : (Bytes → Bytes → Bool) → List Bytes → List Bytes → Bool
match_sigs ver [] keys = true
match_sigs ver (sig ∷ sigs) keys = elim (find_key ver sig keys) [
  | none ↦ false
  | some rest ↦ match_sigs ver sigs rest
]

module _ {Tx : Type 0} (lib : Library Tx) (ctx : SigContext Tx) where
  unfoldable pub op_checkmultisig : Action (Unit {0})
  op_checkmultisig = do
    n_keys ← pop_int
    pubkeys ← pop_many (pos_part n_keys)
    m_sigs ← pop_int
    sigs ← pop_many (pos_part m_sigs)
    pop
    push_bool (match_sigs (verify_sig lib ctx) sigs pubkeys)

  unfoldable pub op_checkmultisigverify : Action (Unit {0})
  op_checkmultisigverify = do op_checkmultisig; op_verify
