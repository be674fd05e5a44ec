-- ===== src/Benchmark/Extraction/Examples.antt =====
-- Runs of the extraction on a chain of three blocks, on a table that is a function of the outpoint: the
-- coinbase of the first block is spent in the second.
use bitcoin_script.Prelude.{ℕ, ◌≡◌, refl, true, map, List, [], ◌∷◌, ◌++◌, none}
use bitcoin_script.Prelude.Int.{pos, negsuc}
use bitcoin_script.Prelude.Little.{to_bytes_le}
use bitcoin_script.Errors.{Result, ok, err}
use bitcoin_script.Blockchain.Pack.{both, sized, compact_size}
use bitcoin_script.Blockchain.Flags.{flags_for_block}
use bitcoin_script.Blockchain.Transaction.{Transaction, Block}
use bitcoin_script.Blockchain.Sighash.{
  compute_sighash_blob, find_program, legacy_blob, insert_number, sorted_set, der_hashtypes,
  legacy_subscript, legacy_hashtypes, legacy_row, legacy_rows, legacy_entry, entry,
}
use bitcoin_script.ScriptUtils.Walk.{
  next_push, codesep_from, find_codesep_positions, hashtypes_from, extract_sig_hashtypes,
  remove_from, remove_codeseparators,
}
use bitcoin_script.ScriptUtils.Codec.{is_witness_program, is_p2sh, to_be2}
use bitcoin_script.Blockchain.Utxo.{get, add, spend, checkpoint_height, set_checkpoint_height}
use bitcoin_script.Blockchain.Tasks.{all_found}
use bitcoin_script.Blockchain.VerifyBlock.{fetch, spend_inputs, add_outputs}
use bitcoin_script.Blockchain.Examples.Verifying.{Memory, memory, memory-IsTable, lib}
use bitcoin_script.Benchmark.{BenchmarkInput, era_of, classify_era}
use bitcoin_script.Benchmark.Extractor.{
  make_input, extract_vins, extract_spends, extract_tx, extract_txs, extract_inputs_from_block,
}
use bitcoin_script.Benchmark.Extraction.{
  Targets, Work, category_of, checkpoint, started, extracted, extract_round, extract_blocks,
  extract_dataset,
}
use bitcoin_script.Benchmark.Extraction.Resumed.{extract_dataset-resumed, extract_dataset-rerun}

abbrev targets : Targets
targets = record { continuous_end = pos 9999; representative_heights = []; stress_heights = [] }

-- A transaction without inputs, with one output.
abbrev coinbase : ℕ → Transaction
coinbase id = record {
  txid = id ∷ [];
  serialized = [];
  n_version = pos 1;
  n_lock_time = 0;
  vin = [];
  vout = record { n_value = pos 50; script_pubkey = 0x51 ∷ [] } ∷ [];
  witness = [];
}

abbrev spending : Transaction
spending = record (coinbase 4) {
  vin = record { prevout_hash = 1 ∷ []; prevout_n = 0; n_sequence = 0; script_sig = [] } ∷ [];
}

abbrev block0 : Block
block0 = record { n_time = 1500000000; vtx = coinbase 1 ∷ [] }

abbrev block1 : Block
block1 = record { n_time = 1500000000; vtx = coinbase 2 ∷ spending ∷ [] }

abbrev block2 : Block
block2 = record { n_time = 1500000000; vtx = coinbase 3 ∷ [] }

abbrev empty : Memory
empty = record { rows = λ txid vout. none; height = negsuc 0 }

abbrev start : Work Memory
start = record { db = empty; committed = empty; partial = []; all_inputs = [] }

abbrev run : Work Memory → ℕ → Block → Result (Work Memory)
run w height block = extract_blocks memory lib targets true (negsuc 0) w ((height, block) ∷ [])

abbrev work_of : Result (Work Memory) → Work Memory
work_of (err e) = start
work_of (ok w) = w

abbrev first : Work Memory
first = work_of (run start 0 block0)

abbrev stopped : Work Memory
stopped = work_of (run first 1 block1)

abbrev last : Work Memory
last = work_of (run stopped 2 block2)

-- The second block has an input.
walks_test :
    (run start 0 block0 ≡ ok first)
    × (run first 1 block1 ≡ ok stopped)
    × (run stopped 2 block2 ≡ ok last)
    × (map (λ (inp : BenchmarkInput). inp.block_height) stopped.all_inputs ≡ 1 ∷ [])
unfolding extract_blocks extract_round extracted category_of checkpoint extract_inputs_from_block
    extract_txs extract_tx add_outputs add set_checkpoint_height flags_for_block extract_spends
    extract_vins make_input get fetch spend spend_inputs compute_sighash_blob to_bytes_le all_found
    find_program era_of classify_era legacy_blob insert_number sorted_set der_hashtypes
    legacy_subscript legacy_hashtypes legacy_row legacy_rows legacy_entry entry next_push
    codesep_from find_codesep_positions hashtypes_from extract_sig_hashtypes remove_from
    remove_codeseparators is_witness_program is_p2sh to_be2 both sized compact_size
walks_test = (refl, refl, refl, refl)

start_test :
    extract_blocks memory lib targets true (negsuc 0) (started memory empty []) [] ≡ ok start
unfolding extract_blocks started checkpoint_height
start_test = refl

abbrev blocks : List (ℕ × Block)
blocks = (0, block0) ∷ (1, block1) ∷ (2, block2) ∷ []

extract_dataset-resumed_example :
    (again : List BenchmarkInput) × (later : List BenchmarkInput) × (stopped.all_inputs
      ≡ first.all_inputs ++ again)
    × (last.all_inputs ≡ stopped.all_inputs ++ later)
    × (extract_dataset memory lib targets true (pos 9999) empty [] blocks
        ≡ ok (last.all_inputs, set_checkpoint_height memory last.db (pos 9999)))
    × (extract_dataset memory lib targets true (pos 9999) stopped.committed stopped.partial blocks
        ≡ ok (
          (stopped.all_inputs ++ again) ++ later,
          set_checkpoint_height memory last.db (pos 9999),
        ))
unfolding checkpoint_height
extract_dataset-resumed_example =
    extract_dataset-resumed memory lib targets memory-IsTable empty (pos 9999) [] ((1, block1) ∷ [])
      ((2, block2) ∷ []) 0 block0 first stopped last refl tt refl (refl, tt) (refl, tt) (refl, tt)
      start start_test walks_test.0 walks_test.1 walks_test.2

abbrev behind : Memory
behind = set_checkpoint_height memory first.db (pos 9999)

run_test :
    extract_dataset memory lib targets true (pos 9999) empty [] ((0, block0) ∷ []) ≡ ok ([], behind)
unfolding extract_dataset started checkpoint_height extract_blocks extract_round extracted
    category_of checkpoint extract_inputs_from_block extract_txs extract_tx add_outputs add
    set_checkpoint_height flags_for_block
run_test = refl

extract_dataset-rerun_example :
    extract_dataset memory lib targets true (pos 9999) behind [] blocks
    ≡ ok ([], set_checkpoint_height memory behind (pos 9999))
extract_dataset-rerun_example =
    extract_dataset-rerun memory lib targets memory-IsTable (pos 9999) empty behind [] []
      ((0, block0) ∷ []) run_test targets (pos 9999) blocks (refl, (refl, (refl, tt)))
