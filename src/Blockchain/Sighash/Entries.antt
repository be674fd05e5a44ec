-- ===== src/Blockchain/Sighash/Entries.antt =====
-- How many entries the signature hash blob of an input has.
use bitcoin_script.Prelude.{
  ℕ, suc, ◌+◌, ◌*◌, ◌/◌, ◌%◌, ◌<◌, ◌≡◌, refl, Bool, true, false, Option, none, some, List, [], ◌∷◌,
  Bytes, length, drop, arith, if◌then◌else◌,
}
use bitcoin_script.Errors.{ok}
use bitcoin_script.ScriptUtils.Codec.{to_be2}
use bitcoin_script.ScriptUtils.Walk.{find_codesep_positions, remove_codeseparators}
use bitcoin_script.Blockchain.Transaction.{TxIn, Transaction}
use bitcoin_script.Blockchain.Pack.Makes.{Makes, Makes-both}
use bitcoin_script.Blockchain.Sighash.{
  hash, Signatures, entry, legacy_entry, legacy_row, legacy_rows, legacy_blob, or_raise,
  legacy_subscript, is_version_1, find_program, legacy_hashtypes, compute_sighash_blob,
}

Makes-to_be2 : (n : ℕ) → n < 65536 → Makes (to_be2 n) 2
unfolding to_be2
Makes-to_be2 n h = (n / 256 ∷ n % 256 ∷ [], ground (arith, h), refl)

-- SignatureHash answers a digest of 32 bytes for the input, for every script and hash type.
abbrev pub Answers : Signatures → Transaction → ℕ → Type 0
Answers lib tx input_index =
    (script : Bytes) (hashtype : ℕ)
    → (h : Bytes) × (lib.signature_hash script tx input_index hashtype ≡ hash h) × (length h ≡ 32)

entry-Makes :
    (hashtype csi : ℕ) (h : Bytes) → csi < 65536 → length h ≡ 32 → Makes (entry hashtype csi h) 35
unfolding entry
entry-Makes hashtype csi h c l =
    Makes-both _ (some h) 3 32 35
      (Makes-both (some (hashtype ∷ [])) (to_be2 csi) 1 2 3 (hashtype ∷ [], refl, refl)
        (Makes-to_be2 csi c) refl)
      (h, refl, l) refl

module _ (lib : Signatures) (tx : Transaction) (input_index : ℕ)
    (answers : Answers lib tx input_index) where
  row-Makes :
      (script : Bytes) (csi : ℕ) (hashtypes : List ℕ)
      → csi < 65536
      → Makes (legacy_row lib tx input_index script csi hashtypes) (35 * length hashtypes)
  unfolding legacy_row legacy_entry
  row-Makes script csi [] c = ([], refl, refl)
  row-Makes script csi (t ∷ ts) c =
      let (h, e, l) = answers script t in
      Makes-both _ (legacy_row lib tx input_index script csi ts) 35 (35 * length ts)
        (35 * suc (length ts)) (rw (e) (entry-Makes t csi h c l)) (row-Makes script csi ts c)
        (omega arith)

  rows-Makes :
      (script : Bytes) (idx : ℕ) (positions hashtypes : List ℕ) (row : ℕ)
      → row ≡ 35 * length hashtypes
      → idx + length positions < 65536
      → Makes
          (legacy_rows lib tx input_index script idx positions hashtypes)
          (length positions * row)
  unfolding legacy_rows
  rows-Makes script idx [] hashtypes row r c = ([], refl, omega arith)
  rows-Makes script idx (p ∷ ps) hashtypes row r c =
      Makes-both _ (legacy_rows lib tx input_index script (idx + 1) ps hashtypes) row
        (length ps * row) (suc (length ps) * row)
        (rw (r) (
          row-Makes (remove_codeseparators (drop p script)) (idx + 1) hashtypes (omega (arith, c))))
        (rows-Makes script (idx + 1) ps hashtypes row r (omega (arith, c))) (omega arith)

blob_of :
    (taproot : Bool) (legacy : Option Bytes) (blob : Bytes)
    → legacy ≡ some blob
    → (if taproot then or_raise legacy else or_raise legacy) ≡ ok blob
blob_of true legacy blob e = rw (e) refl
blob_of false legacy blob e = rw (e) refl

-- The blob of an input that is no taproot spend, or whose outputs to be spent are not handed over, as
-- in the verification of a block: if SignatureHash answers 32 bytes, the blob is made without an
-- exception and has an entry of 35 bytes for each hash type and for the script and what stands behind
-- each of its code separators, of which there are fewer than 65536.
pub compute_sighash_blob-length :
    (lib : Signatures) (tx : Transaction) (input_index : ℕ) (vin : TxIn) (script_pubkey : Bytes)
    → Answers lib tx input_index
    → length (find_codesep_positions (legacy_subscript script_pubkey vin.script_sig)) < 65536
    → let separators =
        length (find_codesep_positions (legacy_subscript script_pubkey vin.script_sig)) in
      let hashtypes = length (legacy_hashtypes tx input_index vin.script_sig) in
      (blob : Bytes) × (compute_sighash_blob lib tx input_index vin script_pubkey none ≡ ok blob)
      × (length blob ≡ 35 * hashtypes + separators * (35 * hashtypes))
unfolding compute_sighash_blob legacy_blob
compute_sighash_blob-length lib tx input_index vin script_pubkey answers few =
    let script = legacy_subscript script_pubkey vin.script_sig in
    let hashtypes = legacy_hashtypes tx input_index vin.script_sig in
    let (blob, e, l) : Makes (legacy_blob lib tx input_index script hashtypes)
        (35 * length hashtypes + length (find_codesep_positions script) * (35 * length hashtypes)) =
      Makes-both _ _ _ _ _
        (row-Makes lib tx input_index answers (remove_codeseparators script) 0 hashtypes
          (omega arith))
        (rows-Makes lib tx input_index answers script 0 (find_codesep_positions script) hashtypes
          (35 * length hashtypes) refl (omega (arith, few)))
        refl in
    (
      blob,
      blob_of (is_version_1 (find_program script_pubkey vin.script_sig))
          (legacy_blob lib tx input_index script hashtypes) blob e,
      l,
    )
