-- ===== src/Benchmark/Api/Description.antt =====
-- What it means that an object of the esplora API, as api_extractor.py reads it, describes a transaction.
use bitcoin_script.Prelude.{
  ◌≡◌, Bool, true, false, Option, none, some, List, [], ◌∷◌, map, reverse, ◌⊎◌, Bytes, IsByte, All,
}
use bitcoin_script.Prelude.Text.{Text, to_hex}
use bitcoin_script.Errors.{ok}
use bitcoin_script.Blockchain.Transaction.{TxIn, TxOut, Transaction}
use bitcoin_script.Blockchain.Utxo.{Row, Table}
use bitcoin_script.Blockchain.VerifyBlock.{fetch}
use bitcoin_script.Benchmark.Api.{ApiOut, ApiVin, ApiTx, Draft, Wire, or_empty_text, or_no_items}

-- The hex digits of some bytes.
abbrev pub HexOf : Text → Bytes → Type 0
HexOf text bytes = (text ≡ to_hex bytes) × All IsByte bytes

-- A witness stack, and the texts of its items.
abbrev pub HexItems : List Text → List Bytes → Type 0
HexItems texts stack = (texts ≡ map to_hex stack) × All (λ item. All IsByte item) stack

abbrev pub DescribesOut : ApiOut → TxOut → Type 0
DescribesOut api out = HexOf api.scriptpubkey out.script_pubkey × (api.value ≡ out.n_value)

abbrev pub DescribesOuts : List ApiOut → List TxOut → Type 0
DescribesOuts [] [] = Unit {0}
DescribesOuts [] (out ∷ outs) = ⊥
DescribesOuts (api ∷ apis) [] = ⊥
DescribesOuts (api ∷ apis) (out ∷ outs) = DescribesOut api out × DescribesOuts apis outs

-- An input with its witness stack. The API shows a txid with its bytes reversed.
abbrev pub DescribesVin : ApiVin → TxIn → List Bytes → Type 0
DescribesVin api vin stack =
    HexOf api.txid (reverse vin.prevout_hash)
    × (api.vout ≡ vin.prevout_n)
    × (api.sequence ≡ some vin.n_sequence)
    × HexOf (or_empty_text api.scriptsig) vin.script_sig
    × HexItems (or_no_items api.witness) stack

-- A prevout is there exactly where there is a row.
abbrev pub DescribesRow : Option ApiOut → Option Row → Type 0
DescribesRow none none = Unit {0}
DescribesRow none (some row) = ⊥
DescribesRow (some api) none = ⊥
DescribesRow (some api) (some row) = HexOf api.scriptpubkey row.0 × (api.value ≡ row.1)

-- The witness stacks of the inputs, which are empty where the transaction has none.
abbrev pub stacks_of : List (List Bytes) → List TxIn → List (List Bytes)
stacks_of [] vins = map (λ _. []) vins
stacks_of (stack ∷ stacks) vins = stack ∷ stacks

-- One of the stacks has an item.
abbrev pub has_item : List (List Bytes) → Bool
has_item [] = false
has_item ([] ∷ stacks) = has_item stacks
has_item ((item ∷ stack) ∷ stacks) = true

abbrev pub draft_of : Transaction → Draft
draft_of tx = record {
  n_version = tx.n_version;
  n_lock_time = tx.n_lock_time;
  vin = tx.vin;
  vout = tx.vout;
  witness = tx.witness;
}

module _ {Db : Type 0} (t : Table Db) where
  -- The inputs, with their witness stacks and with what the UTXO set has for their outpoints.
  abbrev pub DescribesVins : Db → List ApiVin → List TxIn → List (List Bytes) → Type 0
  DescribesVins db [] [] [] = Unit {0}
  DescribesVins db (api ∷ apis) (vin ∷ vins) (stack ∷ stacks) =
      DescribesVin api vin stack
      × DescribesRow api.prevout (fetch t db vin)
      × DescribesVins db apis vins stacks
  DescribesVins db _ _ _ = ⊥

  -- A transaction of the API is the transaction tx, which has no witness stacks or one with an item.
  abbrev pub DescribesSpend : Db → ApiTx → Transaction → Type 0
  DescribesSpend db api tx =
      (api.version ≡ tx.n_version)
      × (api.locktime ≡ tx.n_lock_time)
      × DescribesVins db api.vin tx.vin (stacks_of tx.witness tx.vin)
      × DescribesOuts api.vout tx.vout
      × ((tx.witness ≡ []) ⊎ (has_item tx.witness ≡ true))

-- What python-bitcoinlib documents of a transaction: the bytes of its fields are its bytes, and it is
-- what is read from them.
abbrev pub IsSerialized : Wire → Transaction → Type 0
IsSerialized wire tx =
    (wire.serialize (draft_of tx) ≡ ok tx.serialized) × (wire.deserialize tx.serialized ≡ ok tx)
