-- ===== src/Benchmark/Examples.antt =====
-- The extraction of a block's inputs, and a dataset of two inputs of one transaction.
use mathlib.Core.Path.{subst}
use bitcoin_script.Prelude.{
  ℕ, ◌≡◌, refl, sym, ap, ◌∙◌, Bool, false, Option, none, some, List, [], ◌∷◌, map, Bytes, inl, inr,
  arith,
}
use bitcoin_script.Prelude.Int.{pos}
use bitcoin_script.Prelude.Little.{to_bytes_le}
use bitcoin_script.Prelude.Text.{codes}
use bitcoin_script.Errors.{ok}
use bitcoin_script.Blockchain.Chain.Scanned.{IsAmong}
use bitcoin_script.Blockchain.Pack.{both, sized, compact_size}
use bitcoin_script.Blockchain.Sighash.{
  is_version_1, compute_sighash_blob, find_program, legacy_blob, insert_number, sorted_set,
  der_hashtypes, legacy_subscript, legacy_hashtypes, legacy_row, legacy_rows, legacy_entry, entry,
}
use bitcoin_script.ScriptUtils.Walk.{
  next_push, codesep_from, find_codesep_positions, hashtypes_from, extract_sig_hashtypes,
  remove_from, remove_codeseparators,
}
use bitcoin_script.ScriptUtils.Codec.{is_witness_program, is_p2sh, to_be2}
use bitcoin_script.Blockchain.Utxo.{Row, get, set_checkpoint_height}
use bitcoin_script.Blockchain.Tasks.{
  Collected, make_task, prevouts_blob, all_found, pack_prevouts, pack_amount, witness_blob,
}
use bitcoin_script.Blockchain.VerifyBlock.{collect, fetch, spend_inputs}
use bitcoin_script.Blockchain.Examples.Verifying.{
  Memory, memory, lib, judge, before, behind, outcome, verified, block, spending,
}
use bitcoin_script.Blockchain.Chain.{load_chain}
use bitcoin_script.Blockchain.Examples.Loading.{headers}
use bitcoin_script.Benchmark.ChainWalk.{walk_chain, walk_chain-load_chain}
use bitcoin_script.Benchmark.{BenchmarkInput, era_of, classify_era}
use bitcoin_script.Benchmark.Extractor.{
  Place, make_input, extract_vins, extract_spends, verify_with_k_task, update_utxo_only,
}
use bitcoin_script.Benchmark.Extractor.SameUtxo.{verify_block_inner-update_utxo_only}
use bitcoin_script.Benchmark.Extractor.SameTask.{BeforeTaproot, extract_spends-collect}
use bitcoin_script.Benchmark.Dataset.{
  Dataset, Entry, inline, table, entry_of, save_dataset, load_dataset,
}
use bitcoin_script.Benchmark.Dataset.RoundTrip.{IsPaired, load_dataset-save_dataset}

verify_block_inner-update_utxo_only_example :
    (d : Memory) × (update_utxo_only memory before block 100 ≡ ok d)
    × (set_checkpoint_height memory d (pos 100) ≡ behind)
verify_block_inner-update_utxo_only_example =
    verify_block_inner-update_utxo_only memory lib judge before block 100 outcome behind verified

abbrev place : Place
place = record { height = 100; flags = 1; category = codes "representative"; tx_idx = 1 }

-- What the extractor makes of the second transaction, and the tasks that the verifier makes of it.
abbrev inputs : List BenchmarkInput
inputs =
    record {
      block_height = 100;
      tx_index = 1;
      input_index = 0;
      txid = 2 ∷ [];
      era = codes "pre-p2sh";
      category = codes "representative";
      script_pubkey = 0x51 ∷ [];
      script_sig = [];
      amount = pos 30;
      flags = 1;
      witness = [];
      tx_serialized = [];
      n_in = 0;
      sighash_blob = [];
      tx_version = pos 1;
      n_locktime = 0;
      n_sequence = 0;
      all_prevout_scriptpubkeys = some ((0x51 ∷ []) ∷ []);
      all_prevout_amounts = some (pos 30 ∷ []);
    }
    ∷ []

extracted_test :
    extract_spends memory lib place before spending
    ≡ ok (inputs, spend_inputs memory before spending.vin)
unfolding extract_spends extract_vins make_input get fetch compute_sighash_blob to_bytes_le
    all_found find_program era_of classify_era legacy_blob insert_number sorted_set der_hashtypes
    legacy_subscript legacy_hashtypes legacy_row legacy_rows legacy_entry entry next_push
    codesep_from find_codesep_positions hashtypes_from extract_sig_hashtypes remove_from
    remove_codeseparators is_witness_program is_p2sh to_be2 both sized compact_size
extracted_test = refl

abbrev collected : Collected ℕ
collected = record {
  reports = [];
  tasks =
      record {
        tx_idx = 1;
        input_index = 0;
        script_sig = [];
        script_pubkey = 0x51 ∷ [];
        sighash = [];
        witness = [];
        flags = 1;
        tx_version = pos 1;
        n_locktime = 0;
        n_sequence = 0;
        tx = [];
        amount = pos 30;
        prevouts = 30 ∷ 0 ∷ 0 ∷ 0 ∷ 0 ∷ 0 ∷ 0 ∷ 0 ∷ 1 ∷ 0x51 ∷ [];
      }
      ∷ [];
}

collected_test :
    collect memory lib 1 before spending 1
      (prevouts_blob (map (fetch memory before) spending.vin))
      0
      spending.vin
    ≡ ok collected
unfolding collect make_task prevouts_blob pack_prevouts pack_amount witness_blob get fetch
    compute_sighash_blob to_bytes_le all_found find_program legacy_blob insert_number sorted_set
    der_hashtypes legacy_subscript legacy_hashtypes legacy_row legacy_rows legacy_entry entry
    next_push codesep_from find_codesep_positions hashtypes_from extract_sig_hashtypes remove_from
    remove_codeseparators is_witness_program is_p2sh to_be2 both sized compact_size
collected_test = refl

abbrev spends_version_1 : Option Row → Bool
spends_version_1 none = false
spends_version_1 (some row) = is_version_1 (find_program row.0 [])

spending-BeforeTaproot : BeforeTaproot memory before spending.vin
unfolding find_program is_witness_program is_p2sh next_push
spending-BeforeTaproot = (λ row e. ap spends_version_1 (sym e), tt)

extract_spends-collect_example : map verify_with_k_task inputs ≡ map ok collected.tasks
extract_spends-collect_example =
    extract_spends-collect memory lib place before spending inputs
      (spend_inputs memory before spending.vin) collected spending-BeforeTaproot extracted_test
      collected_test

abbrev first : BenchmarkInput
first = record {
  block_height = 100;
  tx_index = 1;
  input_index = 0;
  txid = 2 ∷ [];
  era = codes "pre-p2sh";
  category = codes "representative";
  script_pubkey = 0x51 ∷ [];
  script_sig = [];
  amount = pos 30;
  flags = 1;
  witness = [];
  tx_serialized = 7 ∷ 8 ∷ [];
  n_in = 0;
  sighash_blob = [];
  tx_version = pos 1;
  n_locktime = 0;
  n_sequence = 0;
  all_prevout_scriptpubkeys = some ((0x51 ∷ []) ∷ []);
  all_prevout_amounts = some (pos 30 ∷ []);
}

-- Two inputs of one transaction.
abbrev dataset : Dataset Bytes
dataset = record {
  inputs = first ∷ record first { input_index = 1; n_in = 1 } ∷ [];
  header = record { version = some 1; others = [] };
}

same_entry : (a : BenchmarkInput) → IsAmong a dataset.inputs → entry_of a ≡ entry_of first
same_entry a (inl e) = ap entry_of e
same_entry a (inr (inl e)) = ap entry_of e
same_entry a (inr (inr none_left)) = elim none_left [ ]

abbrev IsPairedEntry : Entry → Type 0
IsPairedEntry (inline tx) = Unit {0}
IsPairedEntry (table tx spks amounts) = IsPaired spks amounts

dataset-IsPaired :
    (a : BenchmarkInput)
    → IsAmong a dataset.inputs
    → IsPaired a.all_prevout_scriptpubkeys a.all_prevout_amounts
dataset-IsPaired a among = subst IsPairedEntry (sym (same_entry a among)) tt

load_dataset-save_dataset_example :
    load_dataset (save_dataset dataset)
    ≡ ok (record dataset { header = record { version = some 3; others = [] } })
load_dataset-save_dataset_example =
    load_dataset-save_dataset dataset
      (λ a b among behind same. same_entry b behind ∙ sym (same_entry a among)) dataset-IsPaired

walk_chain-load_chain_example :
    walk_chain {Place = ℕ} some 5 headers 3 ≡ load_chain some 5 headers 0 (some 3)
walk_chain-load_chain_example = walk_chain-load_chain some 5 headers 3 (omega arith)
