-- ===== src/ScriptTypes/Classes.antt =====
-- What classifier.py says of the scripts that script_types/ creates.
use bitcoin_script.Prelude.{
  ℕ, ◌≡◌, refl, ap, ◌∙◌, true, List, [], ◌∷◌, ◌++◌, Bytes, length, length-append, arith,
}
use bitcoin_script.Errors.{ok}
use bitcoin_script.ScriptTypes.P2pk
use bitcoin_script.ScriptTypes.P2wpkh
use bitcoin_script.ScriptTypes.P2wsh
use bitcoin_script.ScriptTypes.P2tr
use bitcoin_script.ScriptTypes.Multisig
use bitcoin_script.ScriptTypes.Classifier.{
  ScriptType, classify, is_p2pkh, is_p2sh, is_p2wpkh, is_p2wsh, is_p2tr, is_p2pk, is_multisig,
}
use bitcoin_script.ScriptTypes.RoundTrip.{Template, create, create-extract}
use bitcoin_script.ScriptTypes.Agreement.{succeeds, is_template-extract}

-- The class of a witness program, by its length and its first two bytes.
classify_20 : (h : Bytes) → length h ≡ 20 → classify (0x00 ∷ 0x14 ∷ h) ≡ ScriptType.p2wpkh
unfolding classify is_p2pkh is_p2sh is_p2wpkh
classify_20 h e = rw (e) refl

classify_32 : (h : Bytes) → length h ≡ 32 → classify (0x00 ∷ 0x20 ∷ h) ≡ ScriptType.p2wsh
unfolding classify is_p2pkh is_p2sh is_p2wpkh is_p2wsh
classify_32 h e = rw (e) refl

classify_tr : (h : Bytes) → length h ≡ 32 → classify (0x51 ∷ 0x20 ∷ h) ≡ ScriptType.p2tr
unfolding classify is_p2pkh is_p2sh is_p2wpkh is_p2wsh is_p2tr
classify_tr h e = rw (e) refl

p2wpkh_class : (x s : Bytes) → P2wpkh.create_script_pubkey x ≡ ok s → classify s ≡ ScriptType.p2wpkh
unfolding P2wpkh.create_script_pubkey
p2wpkh_class x s h = ground (arith, classify_20 x)

p2wsh_class : (x s : Bytes) → P2wsh.create_script_pubkey x ≡ ok s → classify s ≡ ScriptType.p2wsh
unfolding P2wsh.create_script_pubkey
p2wsh_class x s h = ground (arith, classify_32 x)

p2tr_class : (x s : Bytes) → P2tr.create_script_pubkey x ≡ ok s → classify s ≡ ScriptType.p2tr
unfolding P2tr.create_script_pubkey
p2tr_class x s h = ground (arith, classify_tr x)

classify_33 :
    (x : Bytes)
    → length x ≡ 33
    → is_p2pk (33 ∷ (x ++ 0xac ∷ [])) ≡ true
    → classify (33 ∷ (x ++ 0xac ∷ [])) ≡ ScriptType.p2pk
unfolding classify is_p2pkh is_p2sh is_p2wpkh is_p2wsh is_p2tr
classify_33 x e h = rw (h, length-append x (0xac ∷ []), e) refl

classify_65 :
    (x : Bytes)
    → length x ≡ 65
    → is_p2pk (65 ∷ (x ++ 0xac ∷ [])) ≡ true
    → classify (65 ∷ (x ++ 0xac ∷ [])) ≡ ScriptType.p2pk
unfolding classify is_p2pkh is_p2sh is_p2wpkh is_p2wsh is_p2tr
classify_65 x e h = rw (h, length-append x (0xac ∷ []), e) refl

is_p2pk-extract : (x s : Bytes) → P2pk.extract_pubkey s ≡ ok x → is_p2pk s ≡ true
is_p2pk-extract x s h = (is_template-extract s).5 ∙ ap succeeds h

p2pk_class : (x s : Bytes) → P2pk.create_script_pubkey x ≡ ok s → classify s ≡ ScriptType.p2pk
unfolding P2pk.create_script_pubkey
p2pk_class x s h = ground (
  arith,
  classify_33 x,
  classify_65 x,
  is_p2pk-extract x s ((create-extract Template.p2pk x s).0 h),
)

multisig_class :
    (m : ℕ) (keys : List Bytes) (r : Bytes)
    → Multisig.extract_pubkeys r ≡ ok (m, keys)
    → is_multisig r ≡ true
unfolding Multisig.extract_pubkeys is_multisig
multisig_class m keys r h = ground arith

abbrev pub type_of : Template → ScriptType
type_of Template.p2pk = ScriptType.p2pk
type_of Template.p2wpkh = ScriptType.p2wpkh
type_of Template.p2wsh = ScriptType.p2wsh
type_of Template.p2tr = ScriptType.p2tr

-- classify names the type of every script that a create_script_pubkey of P2PK, P2WPKH, P2WSH or P2TR
-- has made.
pub classify-create : (t : Template) (x s : Bytes) → create t x ≡ ok s → classify s ≡ type_of t
classify-create Template.p2pk x s h = p2pk_class x s h
classify-create Template.p2wpkh x s h = p2wpkh_class x s h
classify-create Template.p2wsh x s h = p2wsh_class x s h
classify-create Template.p2tr x s h = p2tr_class x s h
