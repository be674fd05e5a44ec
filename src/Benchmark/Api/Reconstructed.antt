-- ===== src/Benchmark/Api/Reconstructed.antt =====
-- `_reconstruct_tx` of api_extractor.py, on the description of a transaction whose texts are the hex
-- digits of its byte strings.
use bitcoin_script.Prelude.{
  ℕ, suc, ◌+◌, ◌≡◌, refl, ap, sym, ◌∙◌, zero, Bool, true, false, Option, none, some, List, [], ◌∷◌,
  map, reverse, reverse-reverse, ◌⊎◌, inl, inr, Bytes, IsByte, All, get_elem?, if◌then◌else◌, arith,
}
use bitcoin_script.Prelude.Text.{Text, to_hex, from_hex-to_hex}
use bitcoin_script.Errors.{Error, Result, ok, err}
use bitcoin_script.Blockchain.Transaction.{TxIn, TxOut, Transaction}
use bitcoin_script.Blockchain.Sighash.{or_empty, witness_items}
use bitcoin_script.Blockchain.Utxo.{Row, Table}
use bitcoin_script.Blockchain.VerifyBlock.{fetch}
use bitcoin_script.Benchmark.Api.{
  ◌>>=◌, ApiOut, ApiVin, ApiTx, Wire, hex_bytes, or_empty_text, or_no_items, add_first, each,
  witness_stack, draft_vin, draft_out, has_items, has_witness, reconstruct_tx,
}
use bitcoin_script.Benchmark.Api.SameInputs.{found_of, Described}
use bitcoin_script.Benchmark.Api.Description.{
  HexOf, HexItems, DescribesOut, DescribesOuts, DescribesVin, DescribesRow, stacks_of, has_item,
  draft_of, DescribesVins, DescribesSpend,
}

abbrev or_value_error : Option Bytes → Result Bytes
or_value_error found = elim found [ none ↦ err Error.value_error | some bytes ↦ ok bytes ]

hex_bytes-HexOf : (text : Text) (bytes : Bytes) → HexOf text bytes → hex_bytes text ≡ ok bytes
hex_bytes-HexOf text bytes (digits, small) =
    ap hex_bytes digits ∙ ap or_value_error (from_hex-to_hex bytes small)

each-hex_bytes :
    (stack : List Bytes)
    → All (λ item. All IsByte item) stack
    → each hex_bytes (map to_hex stack) ≡ ok stack
unfolding each
each-hex_bytes [] small = refl
each-hex_bytes (item ∷ stack) (small, more) =
    ap (λ r. add_first r (each hex_bytes (map to_hex stack)))
      (hex_bytes-HexOf (to_hex item) item (refl, small))
    ∙ ap (add_first (ok item)) (each-hex_bytes stack more)

witness_stack-HexItems :
    (api : ApiVin) (stack : List Bytes)
    → HexItems (or_no_items api.witness) stack
    → witness_stack api ≡ ok stack
unfolding witness_stack
witness_stack-HexItems api stack (digits, small) =
    ap (each hex_bytes) digits ∙ each-hex_bytes stack small

draft_vin-DescribesVin :
    (api : ApiVin) (vin : TxIn) (stack : List Bytes)
    → DescribesVin api vin stack
    → draft_vin api ≡ ok vin
unfolding draft_vin
draft_vin-DescribesVin api vin stack (txid, vout, sequence, script, items) =
    rw
      (
        hex_bytes-HexOf api.txid (reverse vin.prevout_hash) txid,
        hex_bytes-HexOf (or_empty_text api.scriptsig) vin.script_sig script,
        reverse-reverse vin.prevout_hash,
        vout,
        sequence,
      )
      refl

draft_out-DescribesOut :
    (api : ApiOut) (out : TxOut) → DescribesOut api out → draft_out api ≡ ok out
unfolding draft_out
draft_out-DescribesOut api out (script, value) =
    rw (hex_bytes-HexOf api.scriptpubkey out.script_pubkey script, value) refl

each-draft_out :
    (apis : List ApiOut) (outs : List TxOut)
    → DescribesOuts apis outs
    → each draft_out apis ≡ ok outs
unfolding each
each-draft_out [] [] d = refl
each-draft_out [] (out ∷ outs) d = absurd d
each-draft_out (api ∷ apis) [] d = absurd d
each-draft_out (api ∷ apis) (out ∷ outs) (here, others) =
    rw (draft_out-DescribesOut api out here, each-draft_out apis outs others) refl

found_of-DescribesRow :
    (api : Option ApiOut) (row : Option Row) → DescribesRow api row → found_of api ≡ ok row
found_of-DescribesRow none none d = refl
found_of-DescribesRow none (some row) d = absurd d
found_of-DescribesRow (some api) none d = absurd d
found_of-DescribesRow (some api) (some row) (script, value) =
    ap (λ r. elim (r >>= (λ s. ok (s, api.value))) [ err e ↦ err e | ok row ↦ ok (some row) ])
      (hex_bytes-HexOf api.scriptpubkey row.0 script)
    ∙ ap (λ v. ok (some (row.0, v))) value

module _ {Db : Type 0} (t : Table Db) where
  each-draft_vin :
      (db : Db) (apis : List ApiVin) (vins : List TxIn) (stacks : List (List Bytes))
      → DescribesVins t db apis vins stacks
      → each draft_vin apis ≡ ok vins
  unfolding each
  each-draft_vin db [] [] [] d = refl
  each-draft_vin db (api ∷ apis) (vin ∷ vins) (stack ∷ stacks) (here, row, others) =
      rw (draft_vin-DescribesVin api vin stack here, each-draft_vin db apis vins stacks others) refl
  each-draft_vin db [] (vin ∷ vins) stacks d = absurd d
  each-draft_vin db [] [] (stack ∷ stacks) d = absurd d
  each-draft_vin db (api ∷ apis) [] stacks d = absurd d
  each-draft_vin db (api ∷ apis) (vin ∷ vins) [] d = absurd d

  each-witness_stack :
      (db : Db) (apis : List ApiVin) (vins : List TxIn) (stacks : List (List Bytes))
      → DescribesVins t db apis vins stacks
      → each witness_stack apis ≡ ok stacks
  unfolding each
  each-witness_stack db [] [] [] d = refl
  each-witness_stack db (api ∷ apis) (vin ∷ vins) (stack ∷ stacks)
        ((txid, vout, sequence, script, items), row, others) =
      rw (witness_stack-HexItems api stack items, each-witness_stack db apis vins stacks others)
        refl
  each-witness_stack db [] (vin ∷ vins) stacks d = absurd d
  each-witness_stack db [] [] (stack ∷ stacks) d = absurd d
  each-witness_stack db (api ∷ apis) [] stacks d = absurd d
  each-witness_stack db (api ∷ apis) (vin ∷ vins) [] d = absurd d

  -- Whether an input has a witness, from its texts.
  abbrev has_first : List Text → Bool → Bool
  has_first texts later = if has_items texts then true else later

  has_first-map :
      (stack : List Bytes) (stacks : List (List Bytes))
      → has_first (map to_hex stack) (has_item stacks) ≡ has_item (stack ∷ stacks)
  has_first-map [] stacks = refl
  has_first-map (item ∷ stack) stacks = refl

  has_witness-has_item :
      (db : Db) (apis : List ApiVin) (vins : List TxIn) (stacks : List (List Bytes))
      → DescribesVins t db apis vins stacks
      → has_witness apis ≡ has_item stacks
  unfolding has_witness
  has_witness-has_item db [] [] [] d = refl
  has_witness-has_item db (api ∷ apis) (vin ∷ vins) (stack ∷ stacks)
        ((txid, vout, sequence, script, items), row, others) =
      ap (has_first (or_no_items api.witness)) (has_witness-has_item db apis vins stacks others)
      ∙ ap (λ texts. has_first texts (has_item stacks)) items.0
      ∙ has_first-map stack stacks
  has_witness-has_item db [] (vin ∷ vins) stacks d = absurd d
  has_witness-has_item db [] [] (stack ∷ stacks) d = absurd d
  has_witness-has_item db (api ∷ apis) [] stacks d = absurd d
  has_witness-has_item db (api ∷ apis) (vin ∷ vins) [] d = absurd d

  has_item-empty : (vins : List TxIn) → has_item (stacks_of [] vins) ≡ false
  has_item-empty [] = refl
  has_item-empty (vin ∷ vins) = has_item-empty vins

  stacks_of-has_item :
      (stacks : List (List Bytes)) (vins : List TxIn)
      → has_item stacks ≡ true
      → stacks_of stacks vins ≡ stacks
  stacks_of-has_item [] vins h = absurd (cc h)
  stacks_of-has_item (stack ∷ stacks) vins h = refl

  -- The witness of the draft: none where no input has an item.
  abbrev drafted : Bool → Result (List (List Bytes)) → Result (List (List Bytes))
  drafted some_witness stacks = if some_witness then stacks else ok []

  drafted-witness :
      (db : Db) (apis : List ApiVin) (vins : List TxIn) (witness : List (List Bytes))
      → DescribesVins t db apis vins (stacks_of witness vins)
      → (witness ≡ []) ⊎ (has_item witness ≡ true)
      → drafted (has_witness apis) (each witness_stack apis) ≡ ok witness
  drafted-witness db apis vins witness d (inl empty) =
      ap (λ b. drafted b (each witness_stack apis))
        (has_witness-has_item db apis vins (stacks_of witness vins) d
          ∙ ap (λ w. has_item (stacks_of w vins)) empty
          ∙ has_item-empty vins)
      ∙ ap ok (sym empty)
  drafted-witness db apis vins witness d (inr there) =
      let same = stacks_of-has_item witness vins there in
      ap (λ b. drafted b (each witness_stack apis))
        (has_witness-has_item db apis vins (stacks_of witness vins) d ∙ ap has_item same ∙ there)
      ∙ each-witness_stack db apis vins (stacks_of witness vins) d
      ∙ ap ok same

  -- Of the description of a transaction _reconstruct_tx makes what python-bitcoinlib serializes the
  -- transaction to.
  pub reconstruct_tx-DescribesSpend :
      (wire : Wire) (db : Db) (api : ApiTx) (tx : Transaction)
      → DescribesSpend t db api tx
      → reconstruct_tx wire api ≡ wire.serialize (draft_of tx)
  unfolding reconstruct_tx
  reconstruct_tx-DescribesSpend wire db api tx (version, locktime, vins, outs, witness) =
      rw
        (
          each-draft_vin db api.vin tx.vin (stacks_of tx.witness tx.vin) vins,
          each-draft_out api.vout tx.vout outs,
          drafted-witness db api.vin tx.vin tx.witness vins witness,
          version,
          locktime,
        )
        refl

  DescribesVins-Described :
      (db : Db) (tx : Transaction) (i : ℕ) (apis : List ApiVin) (vins : List TxIn)
      (stacks : List (List Bytes))
      → DescribesVins t db apis vins stacks
      → ((j : ℕ) → witness_items tx (i + j) ≡ or_empty (get_elem? stacks j))
      → Described t db tx i apis vins
  DescribesVins-Described db tx i [] [] [] d at = tt
  DescribesVins-Described db tx i (api ∷ apis) (vin ∷ vins) (stack ∷ stacks)
        ((txid, vout, sequence, script, items), row, others) at =
      (
        hex_bytes-HexOf (or_empty_text api.scriptsig) vin.script_sig script,
        witness_stack-HexItems api stack items
            ∙ ap ok (sym (at 0))
            ∙ ap (λ k. ok (witness_items tx k)) (omega arith),
        found_of-DescribesRow api.prevout (fetch t db vin) row,
        DescribesVins-Described db tx (i + 1) apis vins stacks others
            (λ j. ap (witness_items tx) (omega arith) ∙ at (suc j)),
      )
  DescribesVins-Described db tx i [] (vin ∷ vins) stacks d at = absurd d
  DescribesVins-Described db tx i [] [] (stack ∷ stacks) d at = absurd d
  DescribesVins-Described db tx i (api ∷ apis) [] stacks d at = absurd d
  DescribesVins-Described db tx i (api ∷ apis) (vin ∷ vins) [] d at = absurd d

  or_empty-none : (vins : List TxIn) (j : ℕ) → or_empty (get_elem? (stacks_of [] vins) j) ≡ []
  or_empty-none [] j = refl
  or_empty-none (vin ∷ vins) zero = refl
  or_empty-none (vin ∷ vins) (suc j) = or_empty-none vins j

  or_empty-stacks_of :
      (witness : List (List Bytes)) (vins : List TxIn) (j : ℕ)
      → or_empty (get_elem? witness j) ≡ or_empty (get_elem? (stacks_of witness vins) j)
  or_empty-stacks_of [] vins j = sym (or_empty-none vins j)
  or_empty-stacks_of (stack ∷ stacks) vins j = refl

  pub DescribesSpend-Described :
      (db : Db) (api : ApiTx) (tx : Transaction)
      → DescribesSpend t db api tx
      → Described t db tx 0 api.vin tx.vin
  DescribesSpend-Described db api tx (version, locktime, vins, outs, witness) =
      DescribesVins-Described db tx 0 api.vin tx.vin (stacks_of tx.witness tx.vin) vins
        (λ j. ap (witness_items tx) (omega arith) ∙ or_empty-stacks_of tx.witness tx.vin j)
