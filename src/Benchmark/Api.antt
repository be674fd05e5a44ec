-- ===== src/Benchmark/Api.antt =====
-- benchmark/api_extractor.py: the extraction of a block that the esplora API describes. The objects of
-- the JSON are records, with an Option for a key that may be missing. CMutableTransaction and
-- CTransaction of python-bitcoinlib are a parameter: what serialize and deserialize answer.
pub mod Description
pub mod SameInputs
pub mod Reconstructed
pub mod SameBlock
pub mod Pages
pub mod Targets
mod Examples
use bitcoin_script.Prelude.{
  ℕ, zero, suc, ◌+◌, Bool, true, false, Option, none, some, List, [], ◌∷◌, ◌++◌, reverse, Bytes,
  length, get_elem?, if◌then◌else◌, ltb,
}
use bitcoin_script.Prelude.Int.{ℤ}
use bitcoin_script.Prelude.Text.{Text, from_hex}
use bitcoin_script.Errors.{Error, Result, ok, err}
use bitcoin_script.Blockchain.Flags.{flags_for_block}
use bitcoin_script.Blockchain.Transaction.{TxIn, TxOut, Transaction}
use bitcoin_script.Blockchain.Sighash.{Signatures, compute_sighash_blob}
use bitcoin_script.Blockchain.Utxo.{Row}
use bitcoin_script.Benchmark.{BenchmarkInput, classify_era}
use bitcoin_script.Benchmark.Extractor.{Place, columns, scripts_of, amounts_of, with_input}

pub record ApiOut : Type 0 where
  pub scriptpubkey : Text
  pub value : ℤ

pub record ApiVin : Type 0 where
  pub txid : Text
  pub vout : ℕ
  pub is_coinbase : Bool
  pub prevout : Option ApiOut
  pub scriptsig : Option Text
  pub sequence : Option ℕ
  pub witness : Option (List Text)

pub record ApiTx : Type 0 where
  pub version : ℤ
  pub locktime : ℕ
  pub vin : List ApiVin
  pub vout : List ApiOut

-- A CMutableTransaction, without witnesses where `wit` is not set.
pub record Draft : Type 0 where
  pub n_version : ℤ
  pub n_lock_time : ℕ
  pub vin : List TxIn
  pub vout : List TxOut
  pub witness : List (List Bytes)

pub record Wire : Type 0 where
  pub serialize : Draft → Result Bytes
  pub deserialize : Bytes → Result Transaction

infixl 5 ◌>>=◌
abbrev pub ◌>>=◌ : {A B : Type 0} → Result A → (A → Result B) → Result B
err e >>= f = err e
ok a >>= f = f a

abbrev pub hex_bytes : Text → Result Bytes
hex_bytes text = elim (from_hex text) [ none ↦ err Error.value_error | some bytes ↦ ok bytes ]

abbrev pub or_empty_text : Option Text → Text
or_empty_text none = []
or_empty_text (some text) = text

abbrev pub or_no_items : Option (List Text) → List Text
or_no_items none = []
or_no_items (some items) = items

abbrev pub or_final : Option ℕ → ℕ
or_final none = 0xFFFFFFFF
or_final (some sequence) = sequence

abbrev pub add_first : {A : Type 0} → Result A → Result (List A) → Result (List A)
add_first (err e) rest = err e
add_first (ok a) (err e) = err e
add_first (ok a) (ok rest) = ok (a ∷ rest)

-- A loop that makes a list of the items of a list.
unfoldable pub each : {A B : Type 0} → (A → Result B) → List A → Result (List B)
each f [] = ok []
each f (a ∷ others) = add_first (f a) (each f others)

unfoldable pub witness_stack : ApiVin → Result (List Bytes)
witness_stack inp = each hex_bytes (or_no_items inp.witness)

unfoldable pub draft_vin : ApiVin → Result TxIn
draft_vin inp = do
  txid ← hex_bytes inp.txid
  script_sig ← hex_bytes (or_empty_text inp.scriptsig)
  ok (record {
    prevout_hash = reverse txid;
    prevout_n = inp.vout;
    n_sequence = or_final inp.sequence;
    script_sig = script_sig;
  })

unfoldable pub draft_out : ApiOut → Result TxOut
draft_out out = do
  script ← hex_bytes out.scriptpubkey
  ok (record { n_value = out.value; script_pubkey = script })

-- `inp.get("witness")` is true.
abbrev pub has_items : List Text → Bool
has_items [] = false
has_items (item ∷ items) = true

unfoldable pub has_witness : List ApiVin → Bool
has_witness [] = false
has_witness (inp ∷ inps) =
    let later = has_witness inps in if has_items (or_no_items inp.witness) then true else later

unfoldable pub reconstruct_tx : Wire → ApiTx → Result Bytes
reconstruct_tx wire api_tx = do
  vin ← each draft_vin api_tx.vin
  vout ← each draft_out api_tx.vout
  wit ← if has_witness api_tx.vin then each witness_stack api_tx.vin else ok []
  wire.serialize (record {
    n_version = api_tx.version;
    n_lock_time = api_tx.locktime;
    vin = vin;
    vout = vout;
    witness = wit;
  })

-- `bytes.fromhex(pv["scriptpubkey"])` and `pv["value"]`
abbrev pub api_row : ApiOut → Result Row
api_row pv = do script ← hex_bytes pv.scriptpubkey; ok (script, pv.value)

abbrev pub add_found : Result Row → Result (Option (List Row)) → Result (Option (List Row))
add_found (err e) rest = err e
add_found (ok row) (err e) = err e
add_found (ok row) (ok none) = ok none
add_found (ok row) (ok (some rows)) = ok (some (row ∷ rows))

-- The loop that stops at the first input without a prevout.
unfoldable pub api_prevouts : List ApiVin → Result (Option (List Row))
api_prevouts [] = ok (some [])
api_prevouts (vin ∷ vins) =
    let rest = api_prevouts vins in
    elim vin.prevout [ none ↦ ok none | some pv ↦ add_found (api_row pv) rest ]

-- `tx.vin[input_index]`
abbrev pub vin_at : Transaction → ℕ → Result TxIn
vin_at tx input_index = elim (get_elem? tx.vin input_index) [
  | none ↦ err Error.index_error
  | some vin ↦ ok vin
]

-- `api_tx.get("vin", [{}])[0].get("is_coinbase", False)`
abbrev pub is_coinbase : List ApiVin → Result Bool
is_coinbase [] = err Error.index_error
is_coinbase (vin ∷ vins) = ok vin.is_coinbase

abbrev pub join_inputs :
    Result (List BenchmarkInput) → Result (List BenchmarkInput) → Result (List BenchmarkInput)
join_inputs (err e) rest = err e
join_inputs (ok inputs) (err e) = err e
join_inputs (ok inputs) (ok more) = ok (inputs ++ more)

module _ (lib : Signatures) where
  -- One round of the loop over the inputs, where there is a prevout.
  unfoldable pub api_input :
      Place
      → Transaction
      → Bytes
      → Option (List Bytes × List ℤ)
      → ℕ
      → ApiVin
      → ApiOut
      → Result BenchmarkInput
  api_input place tx raw_tx prevouts input_index api_vin prevout = do
    row ← api_row prevout
    script_sig ← hex_bytes (or_empty_text api_vin.scriptsig)
    witness ← witness_stack api_vin
    vin ← vin_at tx input_index
    sighash_blob ← compute_sighash_blob lib tx input_index vin row.0 prevouts
    ok (record {
      block_height = place.height;
      tx_index = place.tx_idx;
      input_index = input_index;
      txid = tx.txid;
      era = classify_era place.height;
      category = place.category;
      script_pubkey = row.0;
      script_sig = script_sig;
      amount = row.1;
      flags = place.flags;
      witness = witness;
      tx_serialized = raw_tx;
      n_in = input_index;
      sighash_blob = sighash_blob;
      tx_version = tx.n_version;
      n_locktime = tx.n_lock_time;
      n_sequence = vin.n_sequence;
      all_prevout_scriptpubkeys = scripts_of prevouts;
      all_prevout_amounts = amounts_of prevouts;
    })

  unfoldable pub api_vins :
      Place
      → Transaction
      → Bytes
      → Option (List Bytes × List ℤ)
      → ℕ
      → List ApiVin
      → Result (List BenchmarkInput)
  api_vins place tx raw_tx prevouts input_index [] = ok []
  api_vins place tx raw_tx prevouts input_index (api_vin ∷ vins) =
      let rest = api_vins place tx raw_tx prevouts (input_index + 1) vins in
      elim api_vin.prevout [
        | none ↦ rest
        | some prevout ↦
            with_input (api_input place tx raw_tx prevouts input_index api_vin prevout) rest
      ]

  -- A transaction that is no coinbase.
  unfoldable pub api_spends : Wire → Place → ApiTx → Result (List BenchmarkInput)
  api_spends wire place api_tx = do
    raw_tx ← reconstruct_tx wire api_tx
    tx ← wire.deserialize raw_tx
    rows ← api_prevouts api_tx.vin
    api_vins place tx raw_tx (columns rows) 0 api_tx.vin

  unfoldable pub api_tx_inputs : Wire → Place → ApiTx → Result (List BenchmarkInput)
  api_tx_inputs wire place api_tx = do
    coinbase ← is_coinbase api_tx.vin
    if coinbase then ok [] else api_spends wire place api_tx

  unfoldable pub api_txs : Wire → Place → List ApiTx → Result (List BenchmarkInput)
  api_txs wire place [] = ok []
  api_txs wire place (api_tx ∷ txs) =
      join_inputs (api_tx_inputs wire place api_tx)
        (api_txs wire (record place { tx_idx = place.tx_idx + 1 }) txs)

  unfoldable pub extract_inputs_from_api_block :
      Wire → ℕ → ℕ → List ApiTx → Text → Result (List BenchmarkInput)
  extract_inputs_from_api_block wire height block_timestamp txs category =
      api_txs wire
        (record {
          height = height;
          flags = flags_for_block height block_timestamp;
          category = category;
          tx_idx = 0;
        })
        txs

-- `_fetch_block_txs`: the loop over the pages that `_get_json` answers for a start, on fuel, which it
-- does not need if a page has fewer than 25 transactions in time.
unfoldable pub fetch_from :
    {Tx : Type 0} → (ℕ → Result (List Tx)) → ℕ → ℕ → List Tx → Result (List Tx)
fetch_from get_page zero start txs = err Error.library_error
fetch_from get_page (suc fuel) start txs = elim (get_page start) [
  | err e ↦ err e
  | ok [] ↦ ok txs
  | ok (tx ∷ page) ↦
      let rest = fetch_from get_page fuel (start + 25) (txs ++ tx ∷ page) in
      if ltb (length (tx ∷ page)) 25 then ok (txs ++ tx ∷ page) else rest
]

unfoldable pub fetch_block_txs : {Tx : Type 0} → (ℕ → Result (List Tx)) → ℕ → Result (List Tx)
fetch_block_txs get_page fuel = fetch_from get_page fuel 0 []
