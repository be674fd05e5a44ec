-- ===== src/ScriptTypes/Agreement.antt =====
-- The template tests of the program that stand in more than one place: classifier.py, the functions
-- that extract, engine.py and script_utils.py.
use bitcoin_script.Prelude.{
  ℕ, zero, suc, ◌≡◌, refl, Bool, true, false, not, ◌&&◌, ◌||◌, [], ◌∷◌, Bytes, length, take, drop,
  byte_at, last_byte, if◌then◌else◌, ◌==◌, arith,
}
use bitcoin_script.Errors.{Error, Result, ok, err}
use bitcoin_script.Engine.Verify as Verify
use bitcoin_script.ScriptUtils.Codec as Codec
use bitcoin_script.ScriptTypes.P2pk
use bitcoin_script.ScriptTypes.P2pkh
use bitcoin_script.ScriptTypes.P2sh
use bitcoin_script.ScriptTypes.P2wpkh
use bitcoin_script.ScriptTypes.P2wsh
use bitcoin_script.ScriptTypes.P2tr
use bitcoin_script.ScriptTypes.Classifier as Classifier

-- The function does not raise.
abbrev pub succeeds {ℓ} : {A : Type ℓ} → Result A → Bool
succeeds (ok a) = true
succeeds (err e) = false

-- The tests of the functions that extract are written out by De Morgan.
module _ {ℓ} {A : Type ℓ} (x : A) where
  agrees_2 :
      (a b : Bool) → (a && b) ≡ succeeds (if not a || not b then err Error.value_error else ok x)
  agrees_2 true true = refl
  agrees_2 true false = refl
  agrees_2 false b = refl

  agrees_3 :
      (a b c : Bool)
      → (a && (b && c))
        ≡ succeeds (if not a || (not b || not c) then err Error.value_error else ok x)
  agrees_3 true b c = agrees_2 b c
  agrees_3 false b c = refl

  agrees_4 :
      (a b c d : Bool)
      → (a && (b && (c && d)))
        ≡ succeeds (if not a || (not b || (not c || not d)) then err Error.value_error else ok x)
  agrees_4 true b c d = agrees_3 b c d
  agrees_4 false b c d = refl

  agrees_5 :
      (a b c d e : Bool)
      → (a && (b && (c && (d && e))))
        ≡ succeeds (
            if not a || (not b || (not c || (not d || not e))) then err Error.value_error else ok x)
  agrees_5 true b c d e = agrees_4 b c d e
  agrees_5 false b c d e = refl

  agrees_6 :
      (a b c d e f : Bool)
      → (a && (b && (c && (d && (e && f)))))
        ≡ succeeds (
            if not a || (not b || (not c || (not d || (not e || not f))))
            then err Error.value_error
            else ok x)
  agrees_6 true b c d e f = agrees_5 b c d e f
  agrees_6 false b c d e f = refl

  agrees_or :
      (y : A) (a b : Bool)
      → (if a then true else (if b then true else false))
        ≡ succeeds (if a then ok x else (if b then ok y else err Error.value_error))
  agrees_or y true b = refl
  agrees_or y false true = refl
  agrees_or y false false = refl

-- The test of the classifier for each of the six templates holds exactly for the scripts from which
-- the template's function extracts the key or the hash.
pub is_template-extract :
    (r : Bytes)
    → (Classifier.is_p2pkh r ≡ succeeds (P2pkh.extract_pubkey_hash r))
      × (Classifier.is_p2sh r ≡ succeeds (P2sh.extract_script_hash r))
      × (Classifier.is_p2wpkh r ≡ succeeds (P2wpkh.extract_pubkey_hash r))
      × (Classifier.is_p2wsh r ≡ succeeds (P2wsh.extract_script_hash r))
      × (Classifier.is_p2tr r ≡ succeeds (P2tr.extract_pubkey r))
      × (Classifier.is_p2pk r ≡ succeeds (P2pk.extract_pubkey r))
unfolding Classifier.is_p2pkh Classifier.is_p2sh Classifier.is_p2wpkh Classifier.is_p2wsh
    Classifier.is_p2tr Classifier.is_p2pk P2pkh.extract_pubkey_hash P2sh.extract_script_hash
    P2wpkh.extract_pubkey_hash P2wsh.extract_script_hash P2tr.extract_pubkey P2pk.extract_pubkey
is_template-extract r = (
  agrees_6 (take 20 (drop 3 r)) (length r == 25) (byte_at r 0 == 0x76) (byte_at r 1 == 0xa9)
      (byte_at r 2 == 0x14) (byte_at r 23 == 0x88) (byte_at r 24 == 0xac),
  agrees_4 (take 20 (drop 2 r)) (length r == 23) (byte_at r 0 == 0xa9) (byte_at r 1 == 0x14)
      (byte_at r 22 == 0x87),
  agrees_3 (drop 2 r) (length r == 22) (byte_at r 0 == 0x00) (byte_at r 1 == 0x14),
  agrees_3 (drop 2 r) (length r == 34) (byte_at r 0 == 0x00) (byte_at r 1 == 0x20),
  agrees_3 (drop 2 r) (length r == 34) (byte_at r 0 == 0x51) (byte_at r 1 == 0x20),
  agrees_or (take 33 (drop 1 r)) (take 65 (drop 1 r))
      ((length r == 35) && ((byte_at r 0 == 0x21) && (byte_at r 34 == 0xac)))
      ((length r == 67) && ((byte_at r 0 == 0x41) && (byte_at r 66 == 0xac))),
)

last_byte_at : (n : ℕ) (r : Bytes) → length r ≡ suc n → last_byte r ≡ byte_at r n
last_byte_at n [] h = absurd (omega arith)
last_byte_at zero (x ∷ []) h = refl
last_byte_at zero (x ∷ y ∷ r) h = absurd (omega arith)
last_byte_at (suc n) (x ∷ []) h = absurd (omega arith)
last_byte_at (suc n) (x ∷ y ∷ r) h = last_byte_at n (y ∷ r) (omega arith)

-- A P2SH pattern, in the three spellings of the program.
p2sh_spellings :
    (l a b c d : ℕ)
    → (l ≡ 23 → c ≡ d)
    → ((l == 23) && (a == 0xa9) && (b == 0x14) && (c == 0x87))
      ≡ ((l == 23) && ((a == 0xa9) && ((b == 0x14) && (d == 0x87))))
p2sh_spellings l a b c d h = ground arith

spellings_3 : (a b c : Bool) → (a && b && c) ≡ (a && (b && c))
spellings_3 true true c = refl
spellings_3 true false c = refl
spellings_3 false b c = refl

-- The engine's tests for P2SH, P2WPKH and P2WSH and the one of script_utils.py for P2SH agree with the
-- classifier's on every script, though the engine reads the last byte where the others read byte 22.
pub is_template-engine :
    (r : Bytes)
    → (Verify.is_p2sh r ≡ Classifier.is_p2sh r)
      × (Codec.is_p2sh r ≡ Classifier.is_p2sh r)
      × (Verify.is_p2wpkh r ≡ Classifier.is_p2wpkh r)
      × (Verify.is_p2wsh r ≡ Classifier.is_p2wsh r)
unfolding Verify.is_p2sh Verify.is_p2wpkh Verify.is_p2wsh Codec.is_p2sh Classifier.is_p2sh
    Classifier.is_p2wpkh Classifier.is_p2wsh
is_template-engine r = (
  p2sh_spellings (length r) (byte_at r 0) (byte_at r 1) (last_byte r) (byte_at r 22)
      (last_byte_at 22 r),
  p2sh_spellings (length r) (byte_at r 0) (byte_at r 1) (byte_at r 22) (byte_at r 22) (λ h. refl),
  spellings_3 (length r == 22) (byte_at r 0 == 0x00) (byte_at r 1 == 0x14),
  spellings_3 (length r == 34) (byte_at r 0 == 0x00) (byte_at r 1 == 0x20),
)
