-- ===== src/Blockchain/Examples/Signing.antt =====
-- The theorems on sizes and signature hashes, at a spend of one P2TR output and at a script with one
-- code separator.
use bitcoin_script.Prelude.{refl, [], ◌∷◌, some, none, Bytes, arith}
use bitcoin_script.Prelude.Int.{pos}
use bitcoin_script.Blockchain.Pack.Makes.{Makes}
use bitcoin_script.Blockchain.Transaction.{TxIn, Transaction}
use bitcoin_script.Blockchain.Taproot.{Signing, taproot_message, zeros}
use bitcoin_script.Blockchain.Taproot.Size.{IsSigning, taproot_message-bip341_size}
use bitcoin_script.Blockchain.Sighash.{Signatures, Hashing}

abbrev vin : TxIn
vin = record { prevout_hash = zeros 32; prevout_n = 1; n_sequence = 4294967293; script_sig = [] }

abbrev tx : Transaction
tx = record {
  txid = zeros 32;
  serialized = [];
  n_version = pos 2;
  n_lock_time = 700000;
  vin = vin ∷ [];
  vout = record { n_value = pos 5000; script_pubkey = 0x51 ∷ [] } ∷ [];
  witness = [];
}

abbrev p2tr_script : Bytes
p2tr_script = 0x51 ∷ 32 ∷ zeros 32

abbrev signing : Signing
signing = record {
  tx = tx;
  input_index = 0;
  hash_type = 0;
  ext_flag = 1;
  prevout_scripts = p2tr_script ∷ [];
  prevout_amounts = pos 6000 ∷ [];
  annex = none;
  tapleaf_hash = some (zeros 32);
  codesep_pos = 0xffffffff;
}

signing-IsSigning : IsSigning signing
signing-IsSigning = record {
  hash_type_fits = omega arith;
  ext_flag_fits = omega arith;
  version_fits = omega arith;
  lock_time_fits = omega arith;
  index_fits = omega arith;
  codesep_fits = omega arith;
  inputs_fit = ((refl, omega arith, omega arith), tt);
  outputs_fit = ((omega arith, omega arith), tt);
  amounts_fit = (omega arith, tt);
  scripts_fit = (omega arith, tt);
  annex_fits = tt;
  leaf_fits = refl;
  own_vin = vin;
  own_vin_there = refl;
  own_amount = pos 6000;
  own_amount_there = refl;
  own_script = p2tr_script;
  own_script_there = refl;
  own_script_p2tr = refl;
}

taproot_message-bip341_size_example : Makes (taproot_message (λ m. zeros 32) signing) 212
taproot_message-bip341_size_example =
    taproot_message-bip341_size (λ m. zeros 32) signing (λ m. refl) signing-IsSigning

abbrev lib : Signatures
lib = record {
  sha256 = λ m. zeros 32;
  signature_hash = λ script spending index hashtype. Hashing.hash (zeros 32);
}
