-- ===== src/Benchmark/Api/SameInputs.antt =====
-- One transaction in the two extractors of the benchmark, api_extractor.py and extractor.py.
use bitcoin_script.Prelude.{
  ℕ, suc, ◌+◌, ◌≡◌, refl, ap, ◌∙◌, Option, none, some, List, [], ◌∷◌, map, Bytes, get_elem?, arith,
}
use bitcoin_script.Prelude.Int.{ℤ}
use bitcoin_script.Errors.{Error, Result, ok, err, both_ok, ok-inj}
use bitcoin_script.Blockchain.Transaction.{TxIn, Transaction}
use bitcoin_script.Blockchain.Sighash.{Signatures, compute_sighash_blob, witness_items}
use bitcoin_script.Blockchain.Utxo.{Row, Table}
use bitcoin_script.Blockchain.Tasks.{all_found}
use bitcoin_script.Blockchain.VerifyBlock.{fetch}
use bitcoin_script.Benchmark.{BenchmarkInput}
use bitcoin_script.Benchmark.Extractor.{
  Place, input_of, columns, with_input, make_input, extract_vins,
}
use bitcoin_script.Benchmark.Api.{
  ◌>>=◌, ApiOut, ApiVin, ApiTx, Wire, hex_bytes, or_empty_text, witness_stack, reconstruct_tx,
  api_row, add_found, api_prevouts, vin_at, api_input, api_vins, api_spends,
}

-- The row of a prevout, where there is one.
abbrev pub found_of : Option ApiOut → Result (Option Row)
found_of none = ok none
found_of (some pv) = elim (api_row pv) [ err e ↦ err e | ok row ↦ ok (some row) ]

found_of_inv :
    (pv : ApiOut) (found : Option Row)
    → found_of (some pv) ≡ ok found
    → (row : Row) × (api_row pv ≡ ok row) × (some row ≡ found)
found_of_inv pv found h =
    let (row, read, same) = both_ok (api_row pv) (λ row. ok (some row)) found h in
    (row, read, ok-inj same)

found_row :
    (row : Row) (rows : List (Option Row))
    → add_found (ok row) (ok (all_found rows)) ≡ ok (all_found (some row ∷ rows))
unfolding all_found
found_row row rows = by_rest (all_found rows)
  where
    by_rest :
        (rest : Option (List Row))
        → add_found (ok row) (ok rest)
          ≡ ok (elim rest [ none ↦ none | some found ↦ some (row ∷ found) ])
    by_rest none = refl
    by_rest (some found) = refl

prevout-all_found :
    (prevout : Option ApiOut) (found : Option Row) (rows : List (Option Row))
    → found_of prevout ≡ ok found
    → elim prevout [ none ↦ ok none | some pv ↦ add_found (api_row pv) (ok (all_found rows)) ]
      ≡ ok (all_found (found ∷ rows))
unfolding all_found
prevout-all_found none found rows h = ap (λ f. ok (all_found (f ∷ rows))) (ok-inj h)
prevout-all_found (some pv) found rows h =
    let (row, read, same) = found_of_inv pv found h in
    ap (λ r. add_found r (ok (all_found rows))) read
    ∙ found_row row rows
    ∙ ap (λ f. ok (all_found (f ∷ rows))) same

abbrev made_or_rest :
    (Row → Result BenchmarkInput)
    → Option Row
    → Result (List BenchmarkInput)
    → Result (List BenchmarkInput)
made_or_rest make row rest = elim row [ none ↦ rest | some row ↦ with_input (make row) rest ]

bind_elim :
    {A B : Type 0} (f : A → B) (r : Result A)
    → (r >>= (λ a. ok (f a))) ≡ elim r [ err e ↦ err e | ok a ↦ ok (f a) ]
bind_elim f (err e) = refl
bind_elim f (ok a) = refl

abbrev or_index_error : Option TxIn → Result TxIn
or_index_error found = elim found [ none ↦ err Error.index_error | some vin ↦ ok vin ]

module _ {Db : Type 0} (t : Table Db) where
  -- The inputs of the API, from an index on, are those of the transaction: the same scriptSig and
  -- witness, and as prevout what the UTXO set has for the outpoint.
  abbrev pub Described : Db → Transaction → ℕ → List ApiVin → List TxIn → Type 0
  Described db tx i [] [] = Unit {0}
  Described db tx i [] (vin ∷ vins) = ⊥
  Described db tx i (api ∷ apis) [] = ⊥
  Described db tx i (api ∷ apis) (vin ∷ vins) =
      (hex_bytes (or_empty_text api.scriptsig) ≡ ok vin.script_sig)
      × (witness_stack api ≡ ok (witness_items tx i))
      × (found_of api.prevout ≡ ok (fetch t db vin))
      × Described db tx (i + 1) apis vins

  api_prevouts-all_found :
      (db : Db) (tx : Transaction) (i : ℕ) (apis : List ApiVin) (vins : List TxIn)
      → Described db tx i apis vins
      → api_prevouts apis ≡ ok (all_found (map (fetch t db) vins))
  unfolding api_prevouts all_found
  api_prevouts-all_found db tx i [] [] d = refl
  api_prevouts-all_found db tx i [] (vin ∷ vins) d = absurd d
  api_prevouts-all_found db tx i (api ∷ apis) [] d = absurd d
  api_prevouts-all_found db tx i (api ∷ apis) (vin ∷ vins) (script, stack, found, others) =
      ap (λ r. elim api.prevout [ none ↦ ok none | some pv ↦ add_found (api_row pv) r ])
        (api_prevouts-all_found db tx (i + 1) apis vins others)
      ∙ prevout-all_found api.prevout (fetch t db vin) (map (fetch t db) vins) found

  vin_at_index :
      (tx : Transaction) (i : ℕ) (vin : TxIn) (vins : List TxIn)
      → ((j : ℕ) → get_elem? tx.vin (i + j) ≡ get_elem? (vin ∷ vins) j)
      → vin_at tx i ≡ ok vin
  vin_at_index tx i vin vins at = ap or_index_error (ap (get_elem? tx.vin) (omega arith) ∙ at 0)

  next_at :
      (tx : Transaction) (i : ℕ) (vin : TxIn) (vins : List TxIn)
      → ((j : ℕ) → get_elem? tx.vin (i + j) ≡ get_elem? (vin ∷ vins) j)
      → (j : ℕ) → get_elem? tx.vin ((i + 1) + j) ≡ get_elem? vins j
  next_at tx i vin vins at j = ap (get_elem? tx.vin) (omega arith) ∙ at (suc j)

  module _ (lib : Signatures) (place : Place) where
    api_input-make_input :
        (tx : Transaction) (prevouts : Option (List Bytes × List ℤ)) (i : ℕ) (api : ApiVin)
        (pv : ApiOut) (vin : TxIn) (row : Row)
        → api_row pv ≡ ok row
        → hex_bytes (or_empty_text api.scriptsig) ≡ ok vin.script_sig
        → witness_stack api ≡ ok (witness_items tx i)
        → vin_at tx i ≡ ok vin
        → api_input lib place tx tx.serialized prevouts i api pv
          ≡ make_input lib place tx prevouts i vin row
    unfolding api_input make_input
    api_input-make_input tx prevouts i api pv vin row read script stack at =
        rw (api_input, read, script, stack, at)
          (bind_elim (input_of place tx prevouts i vin row)
            (compute_sighash_blob lib tx i vin row.0 prevouts))

    api_vins-extract_vins :
        (db : Db) (tx : Transaction) (prevouts : Option (List Bytes × List ℤ)) (i : ℕ)
        (apis : List ApiVin) (vins : List TxIn)
        → Described db tx i apis vins
        → ((j : ℕ) → get_elem? tx.vin (i + j) ≡ get_elem? vins j)
        → api_vins lib place tx tx.serialized prevouts i apis
          ≡ extract_vins t lib place db tx prevouts i vins
    unfolding api_vins extract_vins
    api_vins-extract_vins db tx prevouts i [] [] d at = refl
    api_vins-extract_vins db tx prevouts i [] (vin ∷ vins) d at = absurd d
    api_vins-extract_vins db tx prevouts i (api ∷ apis) [] d at = absurd d
    api_vins-extract_vins db tx prevouts i (api ∷ apis) (vin ∷ vins) (script, stack, found, others)
          at =
        by_prevout api.prevout (fetch t db vin) found
          (api_vins lib place tx tx.serialized prevouts (i + 1) apis)
          (extract_vins t lib place db tx prevouts (i + 1) vins)
          (api_vins-extract_vins db tx prevouts (i + 1) apis vins others (next_at tx i vin vins at))
      where
        by_prevout :
            (prevout : Option ApiOut) (row : Option Row)
            → found_of prevout ≡ ok row
            → (rest rest' : Result (List BenchmarkInput)) → rest ≡ rest'
            → elim prevout [
              | none ↦ rest
              | some pv ↦ with_input (api_input lib place tx tx.serialized prevouts i api pv) rest
            ]
              ≡ made_or_rest (make_input lib place tx prevouts i vin) row rest'
        by_prevout none row h rest rest' same =
            same
            ∙ ap (λ r. made_or_rest (make_input lib place tx prevouts i vin) r rest') (ok-inj h)
        by_prevout (some pv) row h rest rest' same =
            let (found, read, e) = found_of_inv pv row h in
            ap (λ r. with_input r rest)
              (api_input-make_input tx prevouts i api pv vin found read script stack
                (vin_at_index tx i vin vins at))
            ∙ ap (with_input (make_input lib place tx prevouts i vin found)) same
            ∙ ap (λ r. made_or_rest (make_input lib place tx prevouts i vin) r rest') e

    pub api_spends-extract_vins :
        (wire : Wire) (db : Db) (tx : Transaction) (api : ApiTx)
        → reconstruct_tx wire api ≡ ok tx.serialized
        → wire.deserialize tx.serialized ≡ ok tx
        → Described db tx 0 api.vin tx.vin
        → api_spends lib wire place api
          ≡ extract_vins t lib place db tx (columns (all_found (map (fetch t db) tx.vin))) 0 tx.vin
    unfolding api_spends
    api_spends-extract_vins wire db tx api made read d =
        rw (api_spends, made, read, api_prevouts-all_found db tx 0 api.vin tx.vin d)
          (api_vins-extract_vins db tx (columns (all_found (map (fetch t db) tx.vin))) 0 api.vin
            tx.vin d (λ j. ap (get_elem? tx.vin) (omega arith)))
