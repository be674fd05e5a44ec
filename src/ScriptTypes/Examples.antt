-- ===== src/ScriptTypes/Examples.antt =====
-- The theorems on script_types/ at a concrete script hash.
use bitcoin_script.Prelude.{◌≡◌, ◌↔◌, refl, [], ◌∷◌, ◌++◌, Bytes}
use bitcoin_script.Errors.{ok}
use bitcoin_script.ScriptTypes.P2pk
use bitcoin_script.ScriptTypes.P2pkh
use bitcoin_script.ScriptTypes.P2sh
use bitcoin_script.ScriptTypes.P2wpkh
use bitcoin_script.ScriptTypes.P2wsh
use bitcoin_script.ScriptTypes.P2tr
use bitcoin_script.ScriptTypes.Classifier as Classifier
use bitcoin_script.ScriptTypes.RoundTrip.{Template, create, extract, create-extract}
use bitcoin_script.ScriptTypes.Agreement.{succeeds, is_template-extract}
use bitcoin_script.ScriptTypes.Multisig as Multisig
use bitcoin_script.ScriptTypes.Keys.{extract_pubkeys-create_script_pubkey}

abbrev program : Bytes
program =
    1 ∷ 2 ∷ 3 ∷ 4 ∷ 5 ∷ 6 ∷ 7 ∷ 8 ∷ 9 ∷ 10 ∷ 11 ∷ 12 ∷ 13 ∷ 14 ∷ 15 ∷ 16 ∷ 17 ∷ 18 ∷ 19 ∷ 20 ∷ []

abbrev script : Bytes
script = 0x00 ∷ 0x14 ∷ program

create-extract_example :
    (create Template.p2wpkh program ≡ ok script) ↔ (extract Template.p2wpkh script ≡ ok program)
create-extract_example = create-extract Template.p2wpkh program script

is_template-extract_example :
    (Classifier.is_p2pkh script ≡ succeeds (P2pkh.extract_pubkey_hash script))
    × (Classifier.is_p2sh script ≡ succeeds (P2sh.extract_script_hash script))
    × (Classifier.is_p2wpkh script ≡ succeeds (P2wpkh.extract_pubkey_hash script))
    × (Classifier.is_p2wsh script ≡ succeeds (P2wsh.extract_script_hash script))
    × (Classifier.is_p2tr script ≡ succeeds (P2tr.extract_pubkey script))
    × (Classifier.is_p2pk script ≡ succeeds (P2pk.extract_pubkey script))
is_template-extract_example = is_template-extract script

-- A key of 33 bytes.
abbrev some_key : Bytes
some_key = 2 ∷ (program ++ 1 ∷ 2 ∷ 3 ∷ 4 ∷ 5 ∷ 6 ∷ 7 ∷ 8 ∷ 9 ∷ 10 ∷ 11 ∷ 12 ∷ [])

abbrev one_of_two : Bytes
one_of_two = 0x51 ∷ 33 ∷ (some_key ++ 33 ∷ (some_key ++ 0x52 ∷ 0xae ∷ []))

extract_pubkeys-create_script_pubkey_example :
    Multisig.extract_pubkeys one_of_two ≡ ok (1, some_key ∷ some_key ∷ [])
unfolding Multisig.create_script_pubkey
extract_pubkeys-create_script_pubkey_example =
    extract_pubkeys-create_script_pubkey 1 (some_key ∷ some_key ∷ []) one_of_two refl
