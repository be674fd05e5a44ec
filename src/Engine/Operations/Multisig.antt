-- ===== src/Engine/Operations/Multisig.antt =====
-- The key search of OP_CHECKMULTISIG against what it is for: every signature is to be matched with
-- a key of its own, in the order of the keys.
use bitcoin_script.Prelude.{
  ◌≡◌, refl, ◌↔◌, inl, inr, Bool, true, some, List, [], ◌∷◌, Bytes, Bool-cases, Option-cases, arith,
}
use mathlib.Core.Path.{subst, sym}
use mathlib.Core.Option.{some-injective}
use bitcoin_script.Engine.Operations.CryptoOps.{find_key, match_sigs}

-- Some of the keys, in order, verify the signatures one by one.
pub data Matches (ver : Bytes → Bytes → Bool) : List Bytes → List Bytes → Type 0 where
  all_matched : {keys : List Bytes} → Matches ver [] keys
  use_key :
      {sig key : Bytes} {sigs keys : List Bytes}
      → ver sig key ≡ true
      → Matches ver sigs keys
      → Matches ver (sig ∷ sigs) (key ∷ keys)
  skip_key :
      {key : Bytes} {sigs keys : List Bytes} → Matches ver sigs keys → Matches ver sigs (key ∷ keys)

module _ (ver : Bytes → Bytes → Bool) where
  drop_sig :
      {sig : Bytes} {sigs keys : List Bytes} → Matches ver (sig ∷ sigs) keys → Matches ver sigs keys
  drop_sig (use_key h m) = skip_key m
  drop_sig (skip_key m) = skip_key (drop_sig m)

  find_key_sound :
      (sig : Bytes) (sigs keys rest : List Bytes)
      → find_key ver sig keys ≡ some rest
      → Matches ver sigs rest
      → Matches ver (sig ∷ sigs) keys
  unfolding find_key
  find_key_sound sig sigs [] rest e m = cc
  find_key_sound sig sigs (key ∷ keys) rest e m = elim (Bool-cases (ver sig key)) [
    | inl good ↦
        let same : some keys ≡ some rest = ground arith in
        use_key good (subst (Matches ver sigs) (sym (some-injective _ _ same)) m)
    | inr bad ↦
        let later : find_key ver sig keys ≡ some rest = ground arith in
        skip_key (find_key_sound sig sigs keys rest later m)
  ]

  match_sigs_sound :
      (sigs keys : List Bytes) → match_sigs ver sigs keys ≡ true → Matches ver sigs keys
  unfolding match_sigs
  match_sigs_sound [] keys h = all_matched
  match_sigs_sound (sig ∷ sigs) keys h = elim (Option-cases (find_key ver sig keys)) [
    | inl missing ↦ ground arith
    | inr (rest, found) ↦
        find_key_sound sig sigs keys rest found (match_sigs_sound sigs rest (ground arith))
  ]

  find_key_complete :
      {sig : Bytes} {sigs keys : List Bytes}
      → Matches ver (sig ∷ sigs) keys
      → (rest : List Bytes) × (find_key ver sig keys ≡ some rest) × Matches ver sigs rest
  unfolding find_key
  find_key_complete (use_key {keys = keys} h m) = (keys, ground arith, m)
  find_key_complete {sig} (skip_key {key = key} {keys = keys} m) = elim (Bool-cases (ver sig key)) [
    | inl good ↦ (keys, ground arith, drop_sig m)
    | inr bad ↦ let (rest, found, more) = find_key_complete m in (rest, ground arith, more)
  ]

  match_sigs_complete :
      (sigs keys : List Bytes) → Matches ver sigs keys → match_sigs ver sigs keys ≡ true
  unfolding match_sigs
  match_sigs_complete [] keys m = refl
  match_sigs_complete (sig ∷ sigs) keys m =
      let (rest, found, more) = find_key_complete m in
      rw (found, match_sigs) (match_sigs_complete sigs rest more)

  -- The greedy search answers true exactly when the signatures match some of the keys in order.
  pub match_sigs_iff :
      (sigs keys : List Bytes) → (match_sigs ver sigs keys ≡ true) ↔ Matches ver sigs keys
  match_sigs_iff sigs keys = (match_sigs_sound sigs keys, match_sigs_complete sigs keys)
