-- ===== src/Benchmark.antt =====
-- src/bitcoin_script/benchmark/: the records of a benchmark, and the era of a block.
pub mod Extractor
pub mod Extraction
pub mod ChainWalk
pub mod Api
pub mod Dataset
mod Examples
use bitcoin_script.Prelude.{ℕ, Option, none, some, List, [], ◌∷◌, Bytes, if◌then◌else◌, leb}
use bitcoin_script.Prelude.Int.{ℤ}
use bitcoin_script.Prelude.Text.{Text, codes}

pub record BenchmarkInput : Type 0 where
  pub block_height : ℕ
  pub tx_index : ℕ
  pub input_index : ℕ
  pub txid : Bytes
  pub era : Text
  pub category : Text
  pub script_pubkey : Bytes
  pub script_sig : Bytes
  pub amount : ℤ
  pub flags : ℕ
  pub witness : List Bytes
  pub tx_serialized : Bytes
  pub n_in : ℕ
  pub sighash_blob : Bytes
  pub tx_version : ℤ
  pub n_locktime : ℕ
  pub n_sequence : ℕ
  pub all_prevout_scriptpubkeys : Option (List Bytes)
  pub all_prevout_amounts : Option (List ℤ)

-- `_ERA_THRESHOLDS`
abbrev pub era_thresholds : List (ℕ × Text)
era_thresholds =
    (709632, codes "taproot")
    ∷ (481824, codes "segwit")
    ∷ (419328, codes "csv")
    ∷ (388381, codes "cltv")
    ∷ (363725, codes "dersig")
    ∷ (173805, codes "p2sh")
    ∷ (0, codes "pre-p2sh")
    ∷ []

unfoldable pub era_of : ℕ → List (ℕ × Text) → Text
era_of height [] = codes "pre-p2sh"
era_of height ((threshold, era) ∷ others) =
    if leb threshold height then era else era_of height others

unfoldable pub classify_era : ℕ → Text
classify_era height = era_of height era_thresholds
