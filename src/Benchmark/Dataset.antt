-- ===== src/Benchmark/Dataset.antt =====
-- benchmark/dataset.py: a dataset as the object that is written to its file and read again. MessagePack
-- is a parameter of the theorems; `bytes(b)` and `list(l)` of what it answers are b and l.
pub mod RoundTrip
use bitcoin_script.Prelude.{
  ℕ, Bool, true, false, Option, none, some, List, [], ◌∷◌, map, Bytes, if◌then◌else◌, leb,
}
use bitcoin_script.Prelude.Int.{ℤ}
use bitcoin_script.Errors.{Error, Result, ok, err}
use bitcoin_script.Blockchain.Chain.{look_up, put_first}
use bitcoin_script.Benchmark.{BenchmarkInput}

-- The header is a dict that has the entry "version" or not, and others.
pub record Header (H : Type 0) : Type 0 where
  pub version : Option ℕ
  pub others : H

pub record Dataset (H : Type 0) : Type 0 where
  pub inputs : List BenchmarkInput
  pub header : Header H

-- An entry of the table of transactions: bytes in version 2, a dict in version 3.
pub data Entry : Type 0 where
  inline : Bytes → Entry
  table : Bytes → Option (List Bytes) → Option (List ℤ) → Entry

-- The object in the file.
pub record Raw (H : Type 0) : Type 0 where
  pub header : Header H
  pub txdata : List (Bytes × Entry)
  pub inputs : List BenchmarkInput

abbrev pub entry_of : BenchmarkInput → Entry
entry_of inp = table inp.tx_serialized inp.all_prevout_scriptpubkeys inp.all_prevout_amounts

-- The loop that builds `txdata`.
unfoldable pub add_entries : List (Bytes × Entry) → List BenchmarkInput → List (Bytes × Entry)
add_entries txdata [] = txdata
add_entries txdata (inp ∷ inputs) = add_entries (put_first inp.txid (entry_of inp) txdata) inputs

abbrev pub without_txdata : BenchmarkInput → BenchmarkInput
without_txdata inp = record inp {
  tx_serialized = [];
  all_prevout_scriptpubkeys = none;
  all_prevout_amounts = none;
}

unfoldable pub save_dataset : {H : Type 0} → Dataset H → Raw H
save_dataset dataset = record {
  header = record dataset.header { version = some 3 };
  txdata = add_entries [] dataset.inputs;
  inputs = map without_txdata dataset.inputs;
}

-- `(spks, amounts)`, if neither of them is None.
abbrev pub both_or_none : Option (List Bytes) → Option (List ℤ) → Option (List Bytes × List ℤ)
both_or_none none amounts = none
both_or_none (some spks) none = none
both_or_none (some spks) (some amounts) = some (spks, amounts)

-- What `tx_bytes` and `tx_prevouts` have of an entry; `bytes` of a dict raises TypeError.
abbrev pub normalized : Bool → Entry → Result (Bytes × Option (List Bytes × List ℤ))
normalized is_3 (inline tx) = ok (tx, none)
normalized true (table tx spks amounts) = ok (tx, both_or_none spks amounts)
normalized false (table tx spks amounts) = err Error.library_error

abbrev pub with_entry :
    {A : Type 0} → Bytes → Result A → Result (List (Bytes × A)) → Result (List (Bytes × A))
with_entry key (err e) rest = err e
with_entry key (ok a) (err e) = err e
with_entry key (ok a) (ok rest) = ok ((key, a) ∷ rest)

unfoldable pub normalized_all :
    Bool → List (Bytes × Entry) → Result (List (Bytes × (Bytes × Option (List Bytes × List ℤ))))
normalized_all is_3 [] = ok []
normalized_all is_3 ((key, entry) ∷ txdata) =
    with_entry key (normalized is_3 entry) (normalized_all is_3 txdata)

-- `if not inp.tx_serialized and inp.txid in tx_bytes`
abbrev pub fill_tx : Bytes → Option (Bytes × Option (List Bytes × List ℤ)) → Bytes
fill_tx [] (some (tx, prevouts)) = tx
fill_tx [] none = []
fill_tx (b ∷ tx) found = b ∷ tx

-- `if inp.all_prevout_scriptpubkeys is None` and `if po is not None`
abbrev pub fill_prevouts :
    Option (List Bytes)
    → Option (List ℤ)
    → Option (Bytes × Option (List Bytes × List ℤ))
    → Option (List Bytes) × Option (List ℤ)
fill_prevouts none amounts (some (tx, some (spks, found))) = (some spks, some found)
fill_prevouts none amounts (some (tx, none)) = (none, amounts)
fill_prevouts none amounts none = (none, amounts)
fill_prevouts (some spks) amounts found = (some spks, amounts)

abbrev pub filled : BenchmarkInput → Option (Bytes × Option (List Bytes × List ℤ)) → BenchmarkInput
filled inp found =
    let prevouts = fill_prevouts inp.all_prevout_scriptpubkeys inp.all_prevout_amounts found in
    record inp {
      tx_serialized = fill_tx inp.tx_serialized found;
      all_prevout_scriptpubkeys = prevouts.0;
      all_prevout_amounts = prevouts.1;
    }

abbrev pub version_of : Option ℕ → ℕ
version_of none = 1
version_of (some version) = version

unfoldable pub load_dataset : {H : Type 0} → Raw H → Result (Dataset H)
load_dataset raw = elim (normalized_all (leb 3 (version_of raw.header.version)) raw.txdata) [
  | err e ↦ err e
  | ok entries ↦ ok (record {
    inputs = map (λ (inp : BenchmarkInput). filled inp (look_up inp.txid entries)) raw.inputs;
    header = raw.header;
  })
]
