-- ===== src/ScriptUtils/Paths/Classes.antt =====
-- classify_script of script_utils.py against classify of script_types/classifier.py.
use bitcoin_script.Prelude.{
  ℕ, ◌+◌, ◌-◌, ◌≤◌, ◌≡◌, refl, Bool, true, false, ◌&&◌, none, some, List, Bytes, length, byte_at,
  if◌then◌else◌, ◌==◌, length-drop, Option-cases, inl, inr, ◌⊎◌, arith, ap, ◌∙◌,
}
use bitcoin_script.ScriptUtils.Codec as Codec
use bitcoin_script.ScriptUtils.Codec.{is_witness_program}
use bitcoin_script.ScriptUtils.Paths.{
  SpendPath, classify_script, witness_path, taproot_path, nested_path, p2sh_path, key_path,
}
use bitcoin_script.ScriptTypes.Classifier.{
  ScriptType, classify, is_p2pkh, is_p2sh, is_p2wpkh, is_p2wsh, is_p2tr, is_p2pk,
}
use bitcoin_script.ScriptTypes.Agreement.{is_template-engine}

-- The standard template that a spending path belongs to.
abbrev pub template_of : SpendPath → ScriptType
template_of SpendPath.p2pkh = ScriptType.p2pkh
template_of SpendPath.p2pk = ScriptType.p2pk
template_of SpendPath.p2pk_uncompressed = ScriptType.p2pk
template_of SpendPath.p2sh = ScriptType.p2sh
template_of SpendPath.p2sh_p2wpkh = ScriptType.p2sh
template_of SpendPath.p2sh_p2wsh = ScriptType.p2sh
template_of SpendPath.p2wpkh = ScriptType.p2wpkh
template_of SpendPath.p2wsh = ScriptType.p2wsh
template_of SpendPath.p2tr_keypath = ScriptType.p2tr
template_of SpendPath.p2tr_scriptpath = ScriptType.p2tr
template_of SpendPath.p2tr_empty = ScriptType.p2tr
template_of SpendPath.other = ScriptType.nonstandard
template_of (SpendPath.witness_version n) = ScriptType.nonstandard

-- The types that classify_script has no name for.
abbrev pub coarse : ScriptType → ScriptType
coarse ScriptType.multisig = ScriptType.nonstandard
coarse ScriptType.null_data = ScriptType.nonstandard
coarse t = t

taproot_template : (w : List Bytes) → template_of (taproot_path w) ≡ ScriptType.p2tr
unfolding taproot_path
taproot_template w = ground arith

p2sh_template : (s : Bytes) → template_of (p2sh_path s) ≡ ScriptType.p2sh
unfolding p2sh_path nested_path
p2sh_template s = ground arith

program_form :
    (r : Bytes) (v : ℕ) (p : Bytes)
    → is_witness_program r ≡ some (v, p)
    → (length p ≡ length r - 2)
      × (byte_at r 1 + 2 ≡ length r)
      × (((byte_at r 0 ≡ 0) × (v ≡ 0))
          ⊎ ((81 ≤ byte_at r 0) × (byte_at r 0 ≤ 96) × (byte_at r 0 ≡ v + 80)))
unfolding is_witness_program
program_form r v p h = ground (arith, length-drop 2 r)

no_program :
    (r : Bytes)
    → is_witness_program r ≡ none
    → (is_p2wpkh r ≡ false) × (is_p2wsh r ≡ false) × (is_p2tr r ≡ false)
unfolding is_witness_program is_p2wpkh is_p2wsh is_p2tr
no_program r h = ground arith

program_tests :
    (r : Bytes) (v : ℕ) (p : Bytes)
    → is_witness_program r ≡ some (v, p)
    → (is_p2wpkh r ≡ ((v == 0) && (length p == 20)))
      × (is_p2wsh r ≡ ((v == 0) && (length p == 32)))
      × (is_p2tr r ≡ ((v == 1) && (length p == 32)))
unfolding is_p2wpkh is_p2wsh is_p2tr
program_tests r v p h =
    let (l, size, form) = program_form r v p h in (ground arith, ground arith, ground arith)

program_excludes :
    (r : Bytes) (v : ℕ) (p : Bytes)
    → is_witness_program r ≡ some (v, p)
    → (is_p2pkh r ≡ false) × (is_p2sh r ≡ false) × (is_p2pk r ≡ false)
unfolding is_p2pkh is_p2sh is_p2pk
program_excludes r v p h =
    let (l, size, form) = program_form r v p h in (ground arith, ground arith, ground arith)

classify_witness :
    (r : Bytes)
    → is_p2pkh r ≡ false
    → is_p2sh r ≡ false
    → is_p2pk r ≡ false
    → coarse (classify r) ≡ (
        if is_p2wpkh r
        then ScriptType.p2wpkh
        else (if is_p2wsh r
            then ScriptType.p2wsh
            else (if is_p2tr r then ScriptType.p2tr else ScriptType.nonstandard)))
unfolding classify
classify_witness r a b c = rw (a, b, c) ground arith

witness_case :
    (r : Bytes) (v : ℕ) (p : Bytes) (w : List Bytes)
    → is_witness_program r ≡ some (v, p)
    → template_of (witness_path v p w) ≡ coarse (classify r)
unfolding witness_path
witness_case r v p w h =
    let (a, b, c) = program_excludes r v p h in
    let (x, y, z) = program_tests r v p h in
    rw (classify_witness r a b c, x, y, z) ground (arith, taproot_template w)

classify_legacy :
    (r : Bytes)
    → is_p2wpkh r ≡ false
    → is_p2wsh r ≡ false
    → is_p2tr r ≡ false
    → coarse (classify r) ≡ (
        if is_p2pkh r
        then ScriptType.p2pkh
        else (if is_p2sh r
            then ScriptType.p2sh
            else (if is_p2pk r then ScriptType.p2pk else ScriptType.nonstandard)))
unfolding classify
classify_legacy r a b c = rw (a, b, c) ground arith

template_by_tests :
    (a b c : Bool)
    → template_of (
        if a
        then SpendPath.p2pkh
        else (if b
            then SpendPath.p2pk
            else (if c then SpendPath.p2pk_uncompressed else SpendPath.other)))
      ≡ (if a
          then ScriptType.p2pkh
          else (if (if b then true else (if c then true else false))
              then ScriptType.p2pk
              else ScriptType.nonstandard))
template_by_tests a b c = ground arith

key_template :
    (r : Bytes)
    → template_of (key_path r) ≡ (
        if is_p2pkh r
        then ScriptType.p2pkh
        else (if is_p2pk r then ScriptType.p2pk else ScriptType.nonstandard))
unfolding key_path is_p2pkh is_p2pk
key_template r = template_by_tests _ _ _

p2sh_excludes : (r : Bytes) → is_p2sh r ≡ true → is_p2pkh r ≡ false
unfolding is_p2sh is_p2pkh
p2sh_excludes r h = ground arith

legacy_case :
    (r s : Bytes)
    → is_witness_program r ≡ none
    → template_of (if Codec.is_p2sh r then p2sh_path s else key_path r) ≡ coarse (classify r)
legacy_case r s h =
    let (a, b, c) = no_program r h in
    rw (classify_legacy r a b c, (is_template-engine r).1) ground
      (arith, p2sh_excludes r, key_template r, p2sh_template s)

path_none :
    (r s : Bytes) (w : List Bytes)
    → is_witness_program r ≡ none
    → classify_script r s w ≡ (if Codec.is_p2sh r then p2sh_path s else key_path r)
unfolding classify_script
path_none r s w e = rw (classify_script, e) refl

path_some :
    (r s : Bytes) (w : List Bytes) (wp : ℕ × Bytes)
    → is_witness_program r ≡ some wp
    → classify_script r s w ≡ witness_path wp.0 wp.1 w
unfolding classify_script
path_some r s w wp e = rw (classify_script, e) refl

-- The spending path that classify_script names belongs to the template that classify names, for every
-- script, scriptSig and witness; what has no template, or is bare multisig or null data, is `other`
-- or a witness program of another kind.
pub classify_script-classify :
    (r script_sig : Bytes) (w : List Bytes)
    → template_of (classify_script r script_sig w) ≡ coarse (classify r)
classify_script-classify r script_sig w = elim (Option-cases (is_witness_program r)) [
  | inl e ↦ ap template_of (path_none r script_sig w e) ∙ legacy_case r script_sig e
  | inr (wp, e) ↦ ap template_of (path_some r script_sig w wp e) ∙ witness_case r wp.0 wp.1 w e
]
