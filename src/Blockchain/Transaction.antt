-- ===== src/Blockchain/Transaction.antt =====
-- What blockchain/verifier.py reads of the transactions of python-bitcoinlib. A block's transactions
-- are values of the library: the txid and the serialized bytes are what its methods answer.
use bitcoin_script.Prelude.{ℕ, List, Bytes}
use bitcoin_script.Prelude.Int.{ℤ}

pub record TxIn : Type 0 where
  pub prevout_hash : Bytes
  pub prevout_n : ℕ
  pub n_sequence : ℕ
  pub script_sig : Bytes

pub record TxOut : Type 0 where
  pub n_value : ℤ
  pub script_pubkey : Bytes

-- `witness` has the stacks of `wit.vtxinwit`, and is empty where there are none.
pub record Transaction : Type 0 where
  pub txid : Bytes
  pub serialized : Bytes
  pub n_version : ℤ
  pub n_lock_time : ℕ
  pub vin : List TxIn
  pub vout : List TxOut
  pub witness : List (List Bytes)

pub record Block : Type 0 where
  pub n_time : ℕ
  pub vtx : List Transaction
