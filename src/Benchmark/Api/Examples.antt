-- ===== src/Benchmark/Api/Examples.antt =====
-- The theorems on the extraction over the API, at a block of a coinbase and of a transaction that spends
-- an output of the block before, and at thirty transactions in two pages.
use mathlib.Core.Path.{subst}
use mathlib.Core.List.{flatten}
use bitcoin_script.Prelude.{
  ℕ, ◌≡◌, refl, sym, ap, ◌∙◌, zero, suc, drop-append, bytes_eq, Bytes, All, ◌++◌, inr, true, false,
  none, some, List, [], ◌∷◌, map, length, take, drop, if◌then◌else◌, ◌==◌, arith,
}
use bitcoin_script.Prelude.Int.{ℤ, pos, negsuc}
use bitcoin_script.Prelude.Little.{to_bytes_le}
use bitcoin_script.Prelude.Text.{codes, to_hex}
use bitcoin_script.Errors.{Error, Result, ok, err, ok-inj}
use bitcoin_script.Blockchain.Pack.{both, sized, compact_size}
use bitcoin_script.Blockchain.Flags.{flags_for_block}
use bitcoin_script.Blockchain.Sighash.{
  compute_sighash_blob, find_program, legacy_blob, insert_number, sorted_set, der_hashtypes,
  legacy_subscript, legacy_hashtypes, legacy_row, legacy_rows, legacy_entry, entry,
}
use bitcoin_script.ScriptUtils.Walk.{
  next_push, codesep_from, find_codesep_positions, hashtypes_from, extract_sig_hashtypes,
  remove_from, remove_codeseparators,
}
use bitcoin_script.ScriptUtils.Codec.{is_witness_program, is_p2sh, to_be2}
use bitcoin_script.Blockchain.Utxo.{get, add, spend, same_outpoint}
use bitcoin_script.Blockchain.Tasks.{all_found}
use bitcoin_script.Blockchain.VerifyBlock.{fetch, spend_inputs, add_outputs}
use bitcoin_script.Blockchain.Examples.Verifying.{Memory, memory, lib}
use bitcoin_script.Blockchain.Transaction.{TxIn, Transaction, Block}
use bitcoin_script.Benchmark.{BenchmarkInput, era_of, classify_era}
use bitcoin_script.Benchmark.Extractor.{
  make_input, extract_vins, extract_spends, extract_tx, extract_txs, extract_inputs_from_block,
}
use bitcoin_script.Benchmark.Api.{
  ApiOut, ApiTx, Draft, Wire, extract_inputs_from_api_block, api_txs, fetch_block_txs,
}
use bitcoin_script.Benchmark.Extraction.{Targets, is_in, category_of}
use bitcoin_script.Benchmark.Api.Targets.{
  below, target_at, put_heights, target_blocks, fetch_targets, extract_dataset_api,
  target_blocks-category_of,
}
use bitcoin_script.Benchmark.Api.Description.{DescribesRow, IsSerialized}
use bitcoin_script.Benchmark.Api.SameBlock.{
  Describes, block_place, extract_inputs_from_api_block-extract_inputs_from_block,
}
use bitcoin_script.Benchmark.Api.Pages.{IsPaged, fetch_block_txs-all}

abbrev api_coinbase : ApiTx
api_coinbase = record {
  version = pos 1;
  locktime = 0;
  vin =
      record {
        txid = [];
        vout = 0;
        is_coinbase = true;
        prevout = none;
        scriptsig = none;
        sequence = none;
        witness = none;
      }
      ∷ [];
  vout = [];
}

abbrev spent : ApiOut
spent = record { scriptpubkey = codes "51"; value = pos 30 }

abbrev api_spending : ApiTx
api_spending = record {
  version = pos 1;
  locktime = 7;
  vin =
      record {
        txid = codes "0809";
        vout = 0;
        is_coinbase = false;
        prevout = some spent;
        scriptsig = some (codes "52");
        sequence = some 6;
        witness = some (codes "01ab" ∷ [] ∷ []);
      }
      ∷ [];
  vout = record { scriptpubkey = codes "53"; value = pos 20 } ∷ [];
}

-- An encoding of the fields, with the lengths of the byte strings.
abbrev sized_bytes : Bytes → Bytes
sized_bytes bytes = length bytes ∷ bytes

abbrev number : ℤ → ℕ
number (pos n) = n
number (negsuc n) = 0

abbrev fields : Draft → Bytes
fields draft =
    number draft.n_version ∷ draft.n_lock_time ∷ flatten (map in_fields draft.vin)
    ++ (flatten (map (λ out. number out.n_value ∷ sized_bytes out.script_pubkey) draft.vout)
        ++ flatten (map (λ stack. length stack ∷ flatten (map sized_bytes stack)) draft.witness))
  where
    in_fields : TxIn → Bytes
    in_fields vin =
        sized_bytes vin.prevout_hash ++ vin.prevout_n ∷ vin.n_sequence ∷ sized_bytes vin.script_sig

abbrev coinbase : Transaction
coinbase = record {
  txid = 1 ∷ [];
  serialized = 1 ∷ 0 ∷ 50 ∷ 1 ∷ 0x51 ∷ [];
  n_version = pos 1;
  n_lock_time = 0;
  vin = [];
  vout = record { n_value = pos 50; script_pubkey = 0x51 ∷ [] } ∷ [];
  witness = [];
}

abbrev spending : Transaction
spending = record {
  txid = 2 ∷ [];
  serialized = 1 ∷ 7 ∷ 2 ∷ 9 ∷ 8 ∷ 0 ∷ 6 ∷ 1 ∷ 0x52 ∷ 20 ∷ 1 ∷ 0x53 ∷ 2 ∷ 2 ∷ 1 ∷ 0xab ∷ 0 ∷ [];
  n_version = pos 1;
  n_lock_time = 7;
  vin =
      record { prevout_hash = 9 ∷ 8 ∷ []; prevout_n = 0; n_sequence = 6; script_sig = 0x52 ∷ [] }
      ∷ [];
  vout = record { n_value = pos 20; script_pubkey = 0x53 ∷ [] } ∷ [];
  witness = ((1 ∷ 0xab ∷ []) ∷ [] ∷ []) ∷ [];
}

abbrev block : Block
block = record { n_time = 1500000000; vtx = coinbase ∷ spending ∷ [] }

abbrev before : Memory
before = record {
  rows = λ txid vout.
      if same_outpoint (9 ∷ 8 ∷ []) 0 txid vout then some (0x51 ∷ [], pos 30) else none;
  height = pos 99;
}

abbrev wire : Wire
wire = record {
  serialize = λ draft. ok (fields draft);
  deserialize = λ bytes.
      if bytes_eq bytes coinbase.serialized
      then ok coinbase
      else (if bytes_eq bytes spending.serialized then ok spending else err Error.library_error);
}

abbrev outcome_of : Result (List BenchmarkInput × Memory) → List BenchmarkInput × Memory
outcome_of (err e) = ([], before)
outcome_of (ok p) = p

abbrev outcome : List BenchmarkInput × Memory
outcome = outcome_of (extract_inputs_from_block memory lib before block 100 (codes "stress"))

extraction_test :
    (extract_inputs_from_block memory lib before block 100 (codes "stress") ≡ ok outcome)
    × (map (λ (inp : BenchmarkInput). inp.amount) outcome.0 ≡ pos 30 ∷ [])
unfolding extract_inputs_from_block extract_txs extract_tx add_outputs add flags_for_block
    extract_spends extract_vins make_input get fetch spend spend_inputs compute_sighash_blob
    to_bytes_le all_found find_program era_of classify_era legacy_blob insert_number sorted_set
    der_hashtypes legacy_subscript legacy_hashtypes legacy_row legacy_rows legacy_entry entry
    next_push codesep_from find_codesep_positions hashtypes_from extract_sig_hashtypes remove_from
    remove_codeseparators is_witness_program is_p2sh to_be2 both sized compact_size
extraction_test = (refl, refl)

abbrev apis : List ApiTx
apis = api_coinbase ∷ api_spending ∷ []

block-IsSerialized : All (IsSerialized wire) block.vtx
unfolding flatten
block-IsSerialized = ((refl, refl), ((refl, refl), tt))

block-Describes :
    Describes memory lib (block_place 100 block.n_time (codes "stress")) before apis block.vtx
unfolding extract_tx add_outputs add get fetch to_hex
block-Describes = (
  (refl, λ first. absurd (cc first)),
  λ inputs db e. (
    (
      refl,
      λ first. (
        refl,
        refl,
        (
          (
            (refl, (omega arith, (omega arith, tt))),
            refl,
            refl,
            (refl, (omega arith, tt)),
            (refl, ((omega arith, (omega arith, tt)), (tt, tt))),
          ),
          subst (λ (d : Memory). DescribesRow (some spent) (fetch memory d (first_of spending.vin)))
              (ap (λ (p : List BenchmarkInput × Memory). p.1) (ok-inj e))
              ((refl, (omega arith, tt)), refl),
          tt,
        ),
        (((refl, (omega arith, tt)), refl), tt),
        inr refl,
      ),
    ),
    λ inputs db e. tt,
  ),
)
  where
    first_of : List TxIn → TxIn
    first_of [] = record { prevout_hash = []; prevout_n = 0; n_sequence = 0; script_sig = [] }
    first_of (vin ∷ vins) = vin

extract_inputs_from_api_block-extract_inputs_from_block_example :
    extract_inputs_from_api_block lib wire 100 block.n_time apis (codes "stress") ≡ ok outcome.0
extract_inputs_from_api_block-extract_inputs_from_block_example =
    extract_inputs_from_api_block-extract_inputs_from_block memory lib wire before block apis 100
      (codes "stress") outcome.0 outcome.1 block-Describes block-IsSerialized extraction_test.0

abbrev upto : ℕ → List ℕ
upto zero = []
upto (suc n) = n ∷ upto n

abbrev get_page : ℕ → Result (List ℕ)
get_page start = ok (take 25 (drop start (upto 30)))

get_page-IsPaged : IsPaged get_page (upto 30)
get_page-IsPaged front back e =
    ap (λ (xs : List ℕ). ok (take 25 (drop (length front) xs))) (sym e)
    ∙ ap (λ (xs : List ℕ). ok (take 25 xs)) (drop-append front back)

fetch_block_txs-all_example : fetch_block_txs get_page 2 ≡ ok (upto 30)
fetch_block_txs-all_example =
    fetch_block_txs-all get_page (upto 30) 2 get_page-IsPaged (omega arith)

abbrev targets : Targets
targets = record {
  continuous_end = pos 2;
  representative_heights = 1 ∷ 5 ∷ [];
  stress_heights = 5 ∷ 7 ∷ [];
}

target_blocks-category_of_example :
    target_at 5 (target_blocks targets) ≡ some (codes "representative")
unfolding category_of is_in
target_blocks-category_of_example = target_blocks-category_of targets 5

api_dataset_test :
    extract_dataset_api lib wire
      (λ height. if height == 5 then some (1500000000, []) else none)
      targets
    ≡ ok []
unfolding extract_dataset_api fetch_targets target_blocks target_at put_heights below sorted_set
    insert_number extract_inputs_from_api_block api_txs
api_dataset_test = refl
