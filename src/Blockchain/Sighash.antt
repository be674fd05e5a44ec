-- ===== src/Blockchain/Sighash.antt =====
-- `_compute_sighash_blob` of blockchain/verifier.py. SHA-256 and SignatureHash are parameters.
pub mod Entries
use bitcoin_script.Prelude.{
  ℕ, zero, suc, ◌+◌, ◌-◌, Bool, true, false, not, ◌&&◌, ◌||◌, Option, none, some, List, [], ◌∷◌,
  ◌++◌, reverse, Bytes, length, drop, byte_at, last_byte, get_elem?, bit_and, if◌then◌else◌, ◌==◌,
  leb, ltb,
}
use bitcoin_script.Prelude.Int.{ℤ}
use bitcoin_script.Errors.{Error, Result, ok, err}
use bitcoin_script.ScriptUtils.Codec.{is_witness_program, is_p2sh, to_be2}
use bitcoin_script.ScriptUtils.Walk.{
  extract_last_push, extract_sig_hashtypes, find_codesep_positions, remove_codeseparators,
}
use bitcoin_script.Blockchain.Pack.{sized, both}
use bitcoin_script.Blockchain.Transaction.{TxIn, Transaction}
use bitcoin_script.Blockchain.Taproot.{Signing, taproot_sighash, tagged_hash, zeros}

-- What SignatureHash does: it answers a hash, raises AssertionError or ValueError, or anything else.
pub data Hashing : Type 0 where
  hash : Bytes → Hashing
  refused : Hashing
  broken : Hashing

pub record Signatures : Type 0 where
  pub sha256 : Bytes → Bytes
  pub signature_hash : Bytes → Transaction → ℕ → ℕ → Hashing

-- A set of numbers is held in order, without repetition.
unfoldable pub insert_number : ℕ → List ℕ → List ℕ
insert_number n [] = n ∷ []
insert_number n (x ∷ xs) =
    let later = insert_number n xs in
    if ltb n x then n ∷ x ∷ xs else (if n == x then x ∷ xs else x ∷ later)

unfoldable pub sorted_set : List ℕ → List ℕ
sorted_set [] = []
sorted_set (n ∷ ns) = insert_number n (sorted_set ns)

-- `standard_hashtypes`, and the same of the taproot branch.
abbrev pub standard_hashtypes : List ℕ
standard_hashtypes = 0 ∷ 1 ∷ 2 ∷ 3 ∷ 0x81 ∷ 0x82 ∷ 0x83 ∷ []

-- The hash types of the witness items that look like DER signatures.
unfoldable pub der_hashtypes : List Bytes → List ℕ
der_hashtypes [] = []
der_hashtypes (item ∷ items) =
    if leb 9 (length item) && (byte_at item 0 == 0x30)
    then last_byte item ∷ der_hashtypes items
    else der_hashtypes items

-- The hash types of the witness items that have the length of a Schnorr signature with one.
unfoldable pub schnorr_hashtypes : List Bytes → List ℕ
schnorr_hashtypes [] = []
schnorr_hashtypes (item ∷ items) =
    if length item == 65 then byte_at item 64 ∷ schnorr_hashtypes items else schnorr_hashtypes items

abbrev pub or_empty : Option (List Bytes) → List Bytes
or_empty none = []
or_empty (some stack) = stack

abbrev pub witness_items : Transaction → ℕ → List Bytes
witness_items tx input_index = or_empty (get_elem? tx.witness input_index)

-- `bytes([ht]) + csi.to_bytes(2, "big") + sh`
unfoldable pub entry : ℕ → ℕ → Bytes → Option Bytes
entry hashtype csi sighash = both (both (some (hashtype ∷ [])) (to_be2 csi)) (some sighash)

-- An entry that is left out where making it raises.
unfoldable pub attempt : ℕ → ℕ → Option Bytes → Bytes
attempt hashtype csi none = []
attempt hashtype csi (some sighash) = elim (entry hashtype csi sighash) [ none ↦ [] | some e ↦ e ]

-- The annex is the last of two or more items, if its first byte is 0x50.
unfoldable pub split_annex : List Bytes → Option Bytes × List Bytes
split_annex [] = (none, [])
split_annex (item ∷ []) = (none, item ∷ [])
split_annex ([] ∷ item ∷ rest) = (none, [] ∷ item ∷ rest)
split_annex ((b ∷ annex) ∷ item ∷ rest) =
    if b == 0x50 then (some (b ∷ annex), item ∷ rest) else (none, (b ∷ annex) ∷ item ∷ rest)

-- The legacy hash of one subscript and hash type, with the value that stands for the SIGHASH_SINGLE
-- bug.
unfoldable pub legacy_entry : Transaction → ℕ → Bytes → ℕ → ℕ → Hashing → Option Bytes
legacy_entry tx input_index subscript csi hashtype (hash sighash) = entry hashtype csi sighash
legacy_entry tx input_index subscript csi hashtype refused =
    if (bit_and hashtype 0x1f == 3) && leb (length tx.vout) input_index
    then entry hashtype csi (0x01 ∷ zeros 31)
    else some []
legacy_entry tx input_index subscript csi hashtype broken = none

abbrev pub or_raise : Option Bytes → Result Bytes
or_raise none = err Error.library_error
or_raise (some blob) = ok blob

-- The redeem script, where a P2SH scriptSig pushes one.
abbrev pub redeem_or : Bytes → Option Bytes → Bytes
redeem_or script none = script
redeem_or script (some redeem) = redeem

unfoldable pub legacy_subscript : Bytes → Bytes → Bytes
legacy_subscript script_pubkey script_sig =
    if is_p2sh script_pubkey
    then redeem_or script_pubkey (extract_last_push script_sig)
    else script_pubkey

abbrev pub is_version_1 : Option (ℕ × Bytes) → Bool
is_version_1 none = false
is_version_1 (some (version, program)) = version == 1

-- `wp`
unfoldable pub find_program : Bytes → Bytes → Option (ℕ × Bytes)
find_program script_pubkey script_sig = elim (is_witness_program script_pubkey) [
  | some wp ↦ some wp
  | none ↦
      if is_p2sh script_pubkey
      then elim (extract_last_push script_sig) [
        | none ↦ none
        | some redeem ↦ is_witness_program redeem
      ]
      else none
]

unfoldable pub legacy_hashtypes : Transaction → ℕ → Bytes → List ℕ
legacy_hashtypes tx input_index script_sig = sorted_set (
    standard_hashtypes
    ++ (extract_sig_hashtypes script_sig ++ der_hashtypes (witness_items tx input_index)))

-- "TapLeaf"
abbrev pub tap_leaf : Bytes
tap_leaf = 0x54 ∷ 0x61 ∷ 0x70 ∷ 0x4c ∷ 0x65 ∷ 0x61 ∷ 0x66 ∷ []

module _ (lib : Signatures) where
  -- The inner loop of the taproot branch, for one position of a code separator.
  unfoldable pub taproot_row : Signing → ℕ → List ℕ → Bytes
  taproot_row s csi [] = []
  taproot_row s csi (hashtype ∷ hashtypes) =
      attempt hashtype csi (taproot_sighash lib.sha256 (record s { hash_type = hashtype }))
      ++ taproot_row s csi hashtypes

  -- `tap_subscripts`, behind the first: the index of the code separator and its position.
  unfoldable pub taproot_rows : Signing → ℕ → List ℕ → List ℕ → Bytes
  taproot_rows s idx [] hashtypes = []
  taproot_rows s idx (bp ∷ positions) hashtypes =
      taproot_row (record s { codesep_pos = bp - 1 }) (idx + 1) hashtypes
      ++ taproot_rows s (idx + 1) positions hashtypes

  -- A script-path spend, of the control block and the script; the leaf version is read from the first
  -- byte of the control block.
  unfoldable pub script_path_blob : Signing → List ℕ → Bytes → Bytes → Result Bytes
  script_path_blob s hashtypes [] tapscript = err Error.index_error
  script_path_blob s hashtypes (c ∷ control_block) tapscript = elim (sized tapscript) [
    | none ↦ err Error.library_error
    | some leaf ↦
        let s' = record s {
          ext_flag = 1;
          tapleaf_hash = some (tagged_hash lib.sha256 tap_leaf (bit_and c 0xfe ∷ leaf));
        } in
        ok (
          taproot_row s' 0 hashtypes
          ++ taproot_rows s' 0 (find_codesep_positions tapscript) hashtypes)
  ]

  -- By the number of the items that are left without the annex, read from the end.
  unfoldable pub taproot_by_items : Signing → List ℕ → List Bytes → Result Bytes
  taproot_by_items s hashtypes [] = ok []
  taproot_by_items s hashtypes (item ∷ []) = ok (taproot_row s 0 hashtypes)
  taproot_by_items s hashtypes (control_block ∷ tapscript ∷ rest) =
      script_path_blob s hashtypes control_block tapscript

  unfoldable pub taproot_blob : Transaction → ℕ → List Bytes → List ℤ → Result Bytes
  taproot_blob tx input_index prevout_scripts prevout_amounts =
      let items = witness_items tx input_index in
      let (annex, effective) = split_annex (reverse items) in
      taproot_by_items
        (record {
          tx = tx;
          input_index = input_index;
          hash_type = 0;
          ext_flag = 0;
          prevout_scripts = prevout_scripts;
          prevout_amounts = prevout_amounts;
          annex = annex;
          tapleaf_hash = none;
          codesep_pos = 0xffffffff;
        })
        (sorted_set (standard_hashtypes ++ schnorr_hashtypes items)) effective

  unfoldable pub legacy_row : Transaction → ℕ → Bytes → ℕ → List ℕ → Option Bytes
  legacy_row tx input_index subscript csi [] = some []
  legacy_row tx input_index subscript csi (hashtype ∷ hashtypes) =
      both
        (legacy_entry tx input_index subscript csi hashtype
          (lib.signature_hash subscript tx input_index hashtype))
        (legacy_row tx input_index subscript csi hashtypes)

  -- `legacy_subscripts`, behind the first: what stands behind each code separator.
  unfoldable pub legacy_rows : Transaction → ℕ → Bytes → ℕ → List ℕ → List ℕ → Option Bytes
  legacy_rows tx input_index subscript idx [] hashtypes = some []
  legacy_rows tx input_index subscript idx (bp ∷ positions) hashtypes =
      both
        (legacy_row tx input_index (remove_codeseparators (drop bp subscript)) (idx + 1) hashtypes)
        (legacy_rows tx input_index subscript (idx + 1) positions hashtypes)

  unfoldable pub legacy_blob : Transaction → ℕ → Bytes → List ℕ → Option Bytes
  legacy_blob tx input_index subscript hashtypes =
      both (legacy_row tx input_index (remove_codeseparators subscript) 0 hashtypes)
        (legacy_rows tx input_index subscript 0 (find_codesep_positions subscript) hashtypes)

  -- `_compute_sighash_blob`; the scripts and amounts of the outputs that are spent are given or not.
  -- `tx.vin[input_index]` is an input of the transaction.
  unfoldable pub compute_sighash_blob :
      Transaction → ℕ → TxIn → Bytes → Option (List Bytes × List ℤ) → Result Bytes
  compute_sighash_blob tx input_index vin script_pubkey prevouts =
      let legacy = or_raise (
        legacy_blob tx input_index (legacy_subscript script_pubkey vin.script_sig)
          (legacy_hashtypes tx input_index vin.script_sig)) in
      if is_version_1 (find_program script_pubkey vin.script_sig)
      then elim prevouts [
        | none ↦ legacy
        | some (scripts, amounts) ↦ taproot_blob tx input_index scripts amounts
      ]
      else legacy
