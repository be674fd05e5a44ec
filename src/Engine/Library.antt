-- ===== src/Engine/Library.antt =====
-- What the interpreter calls outside the repository: hashlib's digests and python-bitcoinlib's
-- transactions, signature hashes, keys and script iterator. They are parameters of the model.
use bitcoin_script.Prelude.{ℕ, Bool, Option, List, Bytes}
use bitcoin_script.Prelude.Int.{ℤ}

-- `hashlib.new("ripemd160")` raises ValueError where OpenSSL does not have the digest.
pub record Hashes : Type 0 where
  pub ripemd160 : Bytes → Option Bytes
  pub sha1 : Bytes → Bytes
  pub sha256 : Bytes → Bytes

-- An object that a `for` loop over a CScript sees. python-bitcoinlib documents byte strings for the data
-- pushes, and integers for the other opcodes, of which CScriptOp is a subclass; `raw_iter` yields the
-- triples `(opcode, data, sop_idx)`.
pub data Yielded : Type 0 where
  byte_string : Bytes → Yielded
  integer : ℕ → Yielded
  triple : ℕ → Option Bytes → Yielded

-- The objects that the loop sees, and whether the iterator then raises.
pub record Iteration : Type 0 where
  pub items : List Yielded
  pub fails : Bool

-- `none` stands for an exception. `signature_hash` is called with the script code, the transaction,
-- the input index and the hash type, `signature_hash_v0` with the amount besides; `key_verify` is
-- `CECKey()`, `set_pubkey` and `verify`, and takes the key, the hash and the signature.
pub record Library (Tx : Type 0) : Type 0 where
  pub hashes : Hashes
  pub signature_hash : Bytes → Tx → ℤ → ℕ → Option Bytes
  pub signature_hash_v0 : Bytes → Tx → ℤ → ℕ → ℤ → Option Bytes
  pub key_verify : Bytes → Bytes → Bytes → Option Bool
  pub iterate : Bytes → Iteration
