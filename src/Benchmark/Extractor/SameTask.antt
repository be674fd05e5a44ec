-- ===== src/Benchmark/Extractor/SameTask.antt =====
-- The records of the benchmark and the tasks of the block verifier.
use bitcoin_script.Prelude.{
  ℕ, ◌+◌, ◌≡◌, refl, sym, ap, ◌∙◌, false, Option, none, some, List, [], ◌∷◌, map, Bytes, length,
  Option-cases, inl, inr,
}
use bitcoin_script.Prelude.Int.{ℤ}
use bitcoin_script.Errors.{Result, ok, err, err≢ok, both_ok, ok-inj}
use bitcoin_script.Blockchain.Transaction.{TxIn, Transaction}
use bitcoin_script.Blockchain.Pack.{both, compact_size, sized}
use bitcoin_script.Blockchain.Sighash.{
  Signatures, compute_sighash_blob, is_version_1, find_program, witness_items,
}
use bitcoin_script.Blockchain.Utxo.{Row, Table, get}
use bitcoin_script.Blockchain.Tasks.{
  Report, with_report, Collected, all_found, pack_amount, pack_prevouts, prevouts_blob,
  witness_blob, make_task,
}
use bitcoin_script.Blockchain.VerifyBlock.{collect, fetch, spend_inputs}
use bitcoin_script.Blockchain.VerifyBlock.Accepts.{with_task_parts, collect_missing, collect_found}
use bitcoin_script.Benchmark.{BenchmarkInput}
use bitcoin_script.Benchmark.Extractor.{
  Place, columns, scripts_of, amounts_of, input_of, with_blobs, make_input, with_input,
  extract_vins, extract_spends, cs, join_prevouts, build_prevouts_blob, verify_with_k_task,
}

cs-compact_size : (n : ℕ) → cs n ≡ compact_size n
unfolding cs compact_size
cs-compact_size n = refl

join_prevouts-pack_prevouts :
    (rows : List Row)
    → join_prevouts (map (λ (r : Row). r.0) rows) (map (λ (r : Row). r.1) rows) ≡ pack_prevouts rows
unfolding join_prevouts pack_prevouts sized
join_prevouts-pack_prevouts [] = refl
join_prevouts-pack_prevouts ((script, amount) ∷ rows) =
    ap
      (λ size.
        both (both (pack_amount amount) (both size (some script)))
          (join_prevouts (map (λ (r : Row). r.0) rows) (map (λ (r : Row). r.1) rows)))
      (cs-compact_size (length script))
    ∙ ap (both (both (pack_amount amount) (sized script))) (join_prevouts-pack_prevouts rows)

-- The benchmark packs the outputs that a transaction spends as the verifier does, also where one of
-- them is missing.
pub build_prevouts_blob-prevouts_blob :
    (rows : List (Option Row))
    → build_prevouts_blob
        (scripts_of (columns (all_found rows)))
        (amounts_of (columns (all_found rows)))
      ≡ prevouts_blob rows
unfolding prevouts_blob build_prevouts_blob
build_prevouts_blob-prevouts_blob rows = packed (all_found rows)
  where
    packed :
        (found : Option (List Row))
        → build_prevouts_blob (scripts_of (columns found)) (amounts_of (columns found))
          ≡ elim found [ none ↦ some [] | some rows ↦ pack_prevouts rows ]
    packed none = refl
    packed (some rows) = join_prevouts-pack_prevouts rows

-- No prevouts are looked at for an output that is no witness program of version 1.
compute_sighash_blob-none :
    (lib : Signatures) (tx : Transaction) (input_index : ℕ) (vin : TxIn) (script : Bytes)
    (prevouts : Option (List Bytes × List ℤ))
    → is_version_1 (find_program script vin.script_sig) ≡ false
    → compute_sighash_blob lib tx input_index vin script prevouts
      ≡ compute_sighash_blob lib tx input_index vin script none
unfolding compute_sighash_blob
compute_sighash_blob-none lib tx input_index vin script prevouts e = rw (e) refl

module _ (lib : Signatures) (place : Place) (tx : Transaction) (rows : List (Option Row)) where
  same_task :
      (input_index : ℕ) (vin : TxIn) (row : Row) (sighash : Bytes) (witness prevouts : Option Bytes)
      → witness_blob (witness_items tx input_index) ≡ witness
      → compute_sighash_blob lib tx input_index vin row.0 none ≡ ok sighash
      → with_blobs
          (input_of place tx (columns (all_found rows)) input_index vin row sighash)
          witness
          prevouts
        ≡ make_task lib tx place.tx_idx input_index vin place.flags row prevouts
  unfolding make_task
  same_task input_index vin (script, amount) sighash none none w s = refl
  same_task input_index vin (script, amount) sighash (some witness) none w s = refl
  same_task input_index vin (script, amount) sighash none (some prevouts) w s =
      rw (make_task, w) refl
  same_task input_index vin (script, amount) sighash (some witness) (some prevouts) w s =
      rw (make_task, w, s) refl

  -- Where an input of the benchmark is made of an output that is no witness program of version 1, the
  -- benchmark calls `verify_script` with the arguments that the block verifier calls it with, or fails
  -- as the verifier does.
  pub verify_with_k_task-make_task :
      (input_index : ℕ) (vin : TxIn) (row : Row) (inp : BenchmarkInput)
      → is_version_1 (find_program row.0 vin.script_sig) ≡ false
      → make_input lib place tx (columns (all_found rows)) input_index vin row ≡ ok inp
      → verify_with_k_task inp
        ≡ make_task lib tx place.tx_idx input_index vin place.flags row (prevouts_blob rows)
  unfolding make_input verify_with_k_task
  verify_with_k_task-make_task input_index vin row inp old h =
      let (sighash, computed, made) =
        both_ok (compute_sighash_blob lib tx input_index vin row.0 (columns (all_found rows)))
          (λ sighash. ok (input_of place tx (columns (all_found rows)) input_index vin row sighash))
          inp h in
      ap verify_with_k_task (sym (ok-inj made))
      ∙ same_task input_index vin row sighash (witness_blob (witness_items tx input_index))
          (build_prevouts_blob (scripts_of (columns (all_found rows)))
            (amounts_of (columns (all_found rows))))
          refl
          (sym (
              compute_sighash_blob-none lib tx input_index vin row.0 (columns (all_found rows)) old)
            ∙ computed)
      ∙ ap (make_task lib tx place.tx_idx input_index vin place.flags row)
          (build_prevouts_blob-prevouts_blob rows)

with_input_parts :
    (made : Result BenchmarkInput) (rest : Result (List BenchmarkInput))
    (inputs : List BenchmarkInput)
    → with_input made rest ≡ ok inputs
    → (inp : BenchmarkInput) × (others : List BenchmarkInput) × (made ≡ ok inp)
      × (rest ≡ ok others)
      × (inp ∷ others ≡ inputs)
with_input_parts (ok inp) (ok others) inputs h = (inp, others, refl, refl, ok-inj h)
with_input_parts (ok inp) (err e) inputs h = absurd (err≢ok h)
with_input_parts (err e) rest inputs h = absurd (err≢ok h)

with_report_parts :
    {Msg : Type 0} (r : Report Msg) (rest : Result (Collected Msg)) (c : Collected Msg)
    → with_report r rest ≡ ok c
    → (d : Collected Msg) × (rest ≡ ok d) × (d.tasks ≡ c.tasks)
with_report_parts {Msg = Msg} r (ok d) c h =
    (d, refl, ap (λ (s : Collected Msg). s.tasks) (ok-inj h))
with_report_parts r (err e) c h = absurd (err≢ok h)

-- No input of these spends an output that is a witness program of version 1.
abbrev pub BeforeTaproot : {Db : Type 0} → Table Db → Db → List TxIn → Type 0
BeforeTaproot t db [] = Unit {0}
BeforeTaproot t db (vin ∷ vins) =
    ((row : Row)
      → t.select db vin.prevout_hash vin.prevout_n ≡ some row
      → is_version_1 (find_program row.0 vin.script_sig) ≡ false)
    × BeforeTaproot t db vins

module _ {Db : Type 0} (t : Table Db) (lib : Signatures) (place : Place) (db : Db)
    (tx : Transaction) where
  extract_vins_found :
      (prevouts : Option (List Bytes × List ℤ)) (input_index : ℕ) (vin : TxIn) (vins : List TxIn)
      (o : Option Row)
      → t.select db vin.prevout_hash vin.prevout_n ≡ o
      → extract_vins t lib place db tx prevouts input_index (vin ∷ vins) ≡ elim o [
        | none ↦ extract_vins t lib place db tx prevouts (input_index + 1) vins
        | some row ↦
            with_input
              (make_input lib place tx prevouts input_index vin row)
              (extract_vins t lib place db tx prevouts (input_index + 1) vins)
      ]
  unfolding fetch get extract_vins
  extract_vins_found prevouts input_index vin vins none e = rw (extract_vins, e) refl
  extract_vins_found prevouts input_index vin vins (some row) e = rw (extract_vins, e) refl

  extract_vins-collect :
      {Msg : Type 0} (rows : List (Option Row)) (input_index : ℕ) (vins : List TxIn)
      (inputs : List BenchmarkInput) (c : Collected Msg)
      → BeforeTaproot t db vins
      → extract_vins t lib place db tx (columns (all_found rows)) input_index vins ≡ ok inputs
      → collect t lib place.flags db tx place.tx_idx (prevouts_blob rows) input_index vins ≡ ok c
      → map verify_with_k_task inputs ≡ map ok c.tasks
  unfolding extract_vins collect
  extract_vins-collect {Msg = Msg} rows input_index [] inputs c before h k =
      ap (map verify_with_k_task) (sym (ok-inj h))
      ∙ ap (λ (d : Collected Msg). map ok d.tasks) (ok-inj k)
  extract_vins-collect {Msg = Msg} rows input_index (vin ∷ vins) inputs c (old, before) h k =
      elim (Option-cases (t.select db vin.prevout_hash vin.prevout_n)) [
        | inl e ↦
            let (d, others, same) = with_report_parts _ _ c (
              sym (
                collect_missing t lib place.flags db tx place.tx_idx (prevouts_blob rows)
                  input_index vin vins e)
              ∙ k) in
            extract_vins-collect {Msg = Msg} rows (input_index + 1) vins inputs d before
              (sym (extract_vins_found (columns (all_found rows)) input_index vin vins none e) ∙ h)
              others
            ∙ ap (map ok) same
        | inr (row, e) ↦
            let (inp, more, made, rest, same) = with_input_parts _ _ inputs (
              sym (extract_vins_found (columns (all_found rows)) input_index vin vins (some row) e)
              ∙ h) in
            let (task, d, tasked, others, _, tasks) = with_task_parts _ _ c (
              sym (
                collect_found t lib place.flags db tx place.tx_idx (prevouts_blob rows) input_index
                  vin vins row e)
              ∙ k) in
            ap (map verify_with_k_task) (sym same)
            ∙ ap (λ task. task ∷ map verify_with_k_task more)
                (verify_with_k_task-make_task lib place tx rows input_index vin row inp (old row e)
                    made
                  ∙ tasked)
            ∙ ap (λ rest. ok task ∷ rest)
                (extract_vins-collect rows (input_index + 1) vins more d before rest others)
            ∙ ap (map ok) tasks
      ]

  -- Where no input spends an output that is a witness program of version 1, and neither the extractor
  -- nor the verifier ends in an exception on a transaction, the benchmark calls `verify_script` for the
  -- inputs that the extractor makes of it with the arguments of the verifier's tasks, in their order.
  pub extract_spends-collect :
      {Msg : Type 0} (inputs : List BenchmarkInput) (db' : Db) (c : Collected Msg)
      → BeforeTaproot t db tx.vin
      → extract_spends t lib place db tx ≡ ok (inputs, db')
      → collect t lib place.flags db tx place.tx_idx
          (prevouts_blob (map (fetch t db) tx.vin))
          0
          tx.vin
        ≡ ok c
      → map verify_with_k_task inputs ≡ map ok c.tasks
  unfolding extract_spends
  extract_spends-collect inputs db' c before h k =
      let (found, extracted, same) =
        both_ok
          (extract_vins t lib place db tx (columns (all_found (map (fetch t db) tx.vin))) 0 tx.vin)
          (λ inputs. ok (inputs, spend_inputs t db tx.vin)) (inputs, db') h in
      ap (map verify_with_k_task) (sym (ap (λ (p : List BenchmarkInput × Db). p.0) (ok-inj same)))
      ∙ extract_vins-collect (map (fetch t db) tx.vin) 0 tx.vin found c before extracted k
