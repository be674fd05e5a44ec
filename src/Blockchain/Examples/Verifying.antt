-- ===== src/Blockchain/Examples/Verifying.antt =====
-- The theorems on the verification of a block, at a block of a coinbase and of a transaction that
-- spends an output of the block before, on a table that is a function of the outpoint.
use bitcoin_script.Prelude.{ℕ, ◌≡◌, refl, true, [], ◌∷◌, Option, some, none, Bytes, if◌then◌else◌}
use bitcoin_script.Prelude.Int.{ℤ, pos}
use bitcoin_script.Errors.{ok}
use bitcoin_script.Blockchain.Flags.{flags_for_block}
use bitcoin_script.Blockchain.Taproot.{zeros}
use bitcoin_script.Blockchain.Transaction.{Transaction, Block}
use bitcoin_script.Blockchain.Sighash.{
  Signatures, Hashing, compute_sighash_blob, find_program, legacy_blob, insert_number, sorted_set,
  der_hashtypes, legacy_subscript, legacy_hashtypes, legacy_row, legacy_rows, legacy_entry, entry,
}
use bitcoin_script.ScriptUtils.Walk.{
  next_push, codesep_from, find_codesep_positions, hashtypes_from, extract_sig_hashtypes,
  remove_from, remove_codeseparators,
}
use bitcoin_script.ScriptUtils.Codec.{is_witness_program, is_p2sh, to_be2}
use bitcoin_script.Blockchain.Pack.{both, sized, compact_size}
use bitcoin_script.Prelude.Little.{to_bytes_le}
use bitcoin_script.Blockchain.Utxo.{
  Row, Table, IsTable, same_outpoint, add, spend, get, checkpoint_height, set_checkpoint_height,
}
use bitcoin_script.Blockchain.Tasks.{
  Judge, make_task, prevouts_blob, all_found, pack_prevouts, pack_amount, witness_blob, judged,
  run_tasks,
}
use bitcoin_script.Blockchain.VerifyBlock.{
  BlockResult, verify_block_inner, verify_txs, verify_tx, verify_inputs, collect, fetch,
  spend_inputs, add_outputs,
}
use bitcoin_script.Blockchain.VerifyBlock.View.{View, after_txs}
use bitcoin_script.Blockchain.VerifyBlock.Refines.{verify_block_inner-after_txs}
use bitcoin_script.Blockchain.BlockFile.{Yields}
use bitcoin_script.Blockchain.Chain.{ChainResult, verify_chain, verify_blocks}
use bitcoin_script.Blockchain.Chain.Verified.{
  after_blocks, AcceptsBlocks, verify_chain-after_blocks, verify_chain-AcceptsBlocks,
}

pub record Memory : Type 0 where
  pub rows : View
  pub height : ℤ

abbrev put : Memory → Bytes → ℕ → Option Row → Memory
put db txid vout row = record db {
  rows = λ txid' vout'. if same_outpoint txid vout txid' vout' then row else db.rows txid' vout';
}

abbrev unless_taken : Option Row → Memory → Option Memory
unless_taken none db = some db
unless_taken (some row) db = none

abbrev pub memory : Table Memory
memory = record {
  select = λ db txid vout. db.rows txid vout;
  insert = λ db txid vout row. unless_taken (db.rows txid vout) (put db txid vout (some row));
  replace = λ db txid vout row. put db txid vout (some row);
  delete = λ db txid vout. put db txid vout none;
  count = λ db. 0;
  select_height = λ db. db.height;
  update_height = λ db height. record db { height = height };
}

pub memory-IsTable : IsTable memory
memory-IsTable = record {
  select-delete = λ db txid vout txid' vout'. refl;
  select-replace = λ db txid vout row txid' vout'. refl;
  insert_fresh = λ db txid vout row e. rw (e) refl;
  insert_taken = λ db txid vout row old e. rw (e) refl;
  select-update_height = λ db height txid vout. refl;
  select_height-update_height = λ db height. refl;
}

abbrev pub lib : Signatures
lib = record {
  sha256 = λ m. zeros 32;
  signature_hash = λ script spending index hashtype. Hashing.refused;
}

abbrev pub judge : Judge ℕ
judge = record { own = λ task. none; worker = λ task. none; has_pool = true }

abbrev coinbase : Transaction
coinbase = record {
  txid = 1 ∷ [];
  serialized = [];
  n_version = pos 1;
  n_lock_time = 0;
  vin = [];
  vout = record { n_value = pos 50; script_pubkey = 0x51 ∷ [] } ∷ [];
  witness = [];
}

abbrev pub spending : Transaction
spending = record {
  txid = 2 ∷ [];
  serialized = [];
  n_version = pos 1;
  n_lock_time = 0;
  vin = record { prevout_hash = 9 ∷ []; prevout_n = 0; n_sequence = 0; script_sig = [] } ∷ [];
  vout =
      record { n_value = pos 20; script_pubkey = 0x52 ∷ [] }
      ∷ record { n_value = pos 10; script_pubkey = 0x53 ∷ [] }
      ∷ [];
  witness = [];
}

abbrev pub block : Block
block = record { n_time = 1500000000; vtx = coinbase ∷ spending ∷ [] }

abbrev pub before : Memory
before =
    put (record { rows = λ txid vout. none; height = pos 99 }) (9 ∷ []) 0 (some (0x51 ∷ [], pos 30))

abbrev pub behind : Memory
behind =
    record (put
      (put (put (put before (1 ∷ []) 0 (some (0x51 ∷ [], pos 50))) (9 ∷ []) 0 none) (2 ∷ []) 0
        (some (0x52 ∷ [], pos 20)))
      (2 ∷ []) 1 (some (0x53 ∷ [], pos 10))) { height = pos 100 }

abbrev pub outcome : BlockResult ℕ
outcome = record { height = 100; tx_count = 2; input_count = 1; errors = [] }

pub verified : verify_block_inner memory lib judge before block 100 ≡ ok (outcome, behind)
unfolding verify_block_inner verify_txs verify_tx verify_inputs add spend get set_checkpoint_height
    compute_sighash_blob flags_for_block to_bytes_le collect fetch make_task prevouts_blob all_found
    pack_prevouts pack_amount witness_blob judged run_tasks spend_inputs add_outputs find_program
    legacy_blob insert_number sorted_set der_hashtypes legacy_subscript legacy_hashtypes legacy_row
    legacy_rows legacy_entry entry next_push codesep_from find_codesep_positions hashtypes_from
    extract_sig_hashtypes remove_from remove_codeseparators is_witness_program is_p2sh to_be2 both
    sized compact_size
verified = refl

verify_block_inner-after_txs_example :
    (behind.rows ≡ after_txs before.rows 0 block.vtx) × (checkpoint_height memory behind ≡ pos 100)
verify_block_inner-after_txs_example =
    verify_block_inner-after_txs memory memory-IsTable lib judge before block 100 outcome behind
      verified

abbrev chain : ℕ → Option ℕ → Yields (ℕ × Block)
chain start last = record { items = (100, block) ∷ []; failure = none }

abbrev summary : ChainResult ℕ
summary = record {
  start_height = 100;
  end_height = 100;
  blocks_verified = 1;
  inputs_verified = 1;
  errors = [];
}

chain_verified : verify_chain memory lib judge chain before 0 (some 100) ≡ ok (summary, behind)
unfolding verify_chain verify_blocks checkpoint_height
chain_verified = rw (verify_chain, verify_blocks, verified) refl

verify_chain-after_blocks_example :
    (behind.rows ≡ after_blocks before.rows ((100, block) ∷ []))
    × (checkpoint_height memory behind ≡ pos 100)
unfolding checkpoint_height
verify_chain-after_blocks_example =
    verify_chain-after_blocks memory lib judge chain before 0 (some 100) summary behind
      memory-IsTable chain_verified

verify_chain-AcceptsBlocks_example : AcceptsBlocks lib judge before.rows ((100, block) ∷ [])
unfolding checkpoint_height
verify_chain-AcceptsBlocks_example =
    verify_chain-AcceptsBlocks memory lib judge chain before 0 (some 100) summary behind
      memory-IsTable chain_verified refl
