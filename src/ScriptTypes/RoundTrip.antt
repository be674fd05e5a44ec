-- ===== src/ScriptTypes/RoundTrip.antt =====
-- What script_types/ creates and what it extracts: p2pk.py, p2wpkh.py, p2wsh.py and p2tr.py.
use bitcoin_script.Prelude.{
  ℕ, zero, suc, ◌≡◌, refl, sym, ap, ◌∙◌, ◌&&◌, [], ◌∷◌, ◌++◌, Bytes, length, take, byte_at,
  if◌then◌else◌, ◌==◌, length-append, length-take, take-append, arith, ◌↔◌, ◌⊎◌, inl, inr,
}
use bitcoin_script.Errors.{Error, Result, ok, err}
use mathlib.Core.Path.{subst}
use bitcoin_script.ScriptTypes.P2pk
use bitcoin_script.ScriptTypes.P2wpkh
use bitcoin_script.ScriptTypes.P2wsh
use bitcoin_script.ScriptTypes.P2tr

-- The content of a Result, to tell two of them apart.
or_else {ℓ} : {A : Type ℓ} → A → Result A → A
or_else a (ok b) = b
or_else a (err e) = a

ok_injective {ℓ} : {A : Type ℓ} {a b : A} → ok a ≡ ok b → a ≡ b
unfolding or_else
ok_injective {a} h = ap (or_else a) h

pub byte_at-append : (xs : Bytes) (y : ℕ) (ys : Bytes) → byte_at (xs ++ y ∷ ys) (length xs) ≡ y
byte_at-append [] y ys = refl
byte_at-append (x ∷ xs) y ys = byte_at-append xs y ys

-- A list that is one longer than `n` is its first `n` elements and the one behind.
take-byte_at : (n : ℕ) (xs : Bytes) → length xs ≡ suc n → take n xs ++ byte_at xs n ∷ [] ≡ xs
take-byte_at n [] h = absurd (omega arith)
take-byte_at zero (x ∷ []) h = refl
take-byte_at zero (x ∷ y ∷ xs) h = absurd (omega arith)
take-byte_at (suc n) (x ∷ xs) h = ap (λ (t : Bytes). x ∷ t) (take-byte_at n xs (omega arith))

p2wpkh_extracts :
    (pubkey_hash s : Bytes)
    → P2wpkh.create_script_pubkey pubkey_hash ≡ ok s
    → P2wpkh.extract_pubkey_hash s ≡ ok pubkey_hash
unfolding P2wpkh.create_script_pubkey P2wpkh.extract_pubkey_hash
p2wpkh_extracts pubkey_hash [] h = ground arith
p2wpkh_extracts pubkey_hash (a ∷ []) h = ground arith
p2wpkh_extracts pubkey_hash (a ∷ b ∷ r) h = ground arith

p2wpkh_creates :
    (pubkey_hash s : Bytes)
    → P2wpkh.extract_pubkey_hash s ≡ ok pubkey_hash
    → P2wpkh.create_script_pubkey pubkey_hash ≡ ok s
unfolding P2wpkh.create_script_pubkey P2wpkh.extract_pubkey_hash
p2wpkh_creates pubkey_hash [] h = ground arith
p2wpkh_creates pubkey_hash (a ∷ []) h = ground arith
p2wpkh_creates pubkey_hash (a ∷ b ∷ r) h = ground arith

p2wsh_extracts :
    (script_hash s : Bytes)
    → P2wsh.create_script_pubkey script_hash ≡ ok s
    → P2wsh.extract_script_hash s ≡ ok script_hash
unfolding P2wsh.create_script_pubkey P2wsh.extract_script_hash
p2wsh_extracts script_hash [] h = ground arith
p2wsh_extracts script_hash (a ∷ []) h = ground arith
p2wsh_extracts script_hash (a ∷ b ∷ r) h = ground arith

p2wsh_creates :
    (script_hash s : Bytes)
    → P2wsh.extract_script_hash s ≡ ok script_hash
    → P2wsh.create_script_pubkey script_hash ≡ ok s
unfolding P2wsh.create_script_pubkey P2wsh.extract_script_hash
p2wsh_creates script_hash [] h = ground arith
p2wsh_creates script_hash (a ∷ []) h = ground arith
p2wsh_creates script_hash (a ∷ b ∷ r) h = ground arith

p2tr_extracts :
    (tweaked_pubkey s : Bytes)
    → P2tr.create_script_pubkey tweaked_pubkey ≡ ok s
    → P2tr.extract_pubkey s ≡ ok tweaked_pubkey
unfolding P2tr.create_script_pubkey P2tr.extract_pubkey
p2tr_extracts tweaked_pubkey [] h = ground arith
p2tr_extracts tweaked_pubkey (a ∷ []) h = ground arith
p2tr_extracts tweaked_pubkey (a ∷ b ∷ r) h = ground arith

p2tr_creates :
    (tweaked_pubkey s : Bytes)
    → P2tr.extract_pubkey s ≡ ok tweaked_pubkey
    → P2tr.create_script_pubkey tweaked_pubkey ≡ ok s
unfolding P2tr.create_script_pubkey P2tr.extract_pubkey
p2tr_creates tweaked_pubkey [] h = ground arith
p2tr_creates tweaked_pubkey (a ∷ []) h = ground arith
p2tr_creates tweaked_pubkey (a ∷ b ∷ r) h = ground arith

module _ (pubkey : Bytes) (n : ℕ) (h : length pubkey ≡ n) where
  byte_behind : byte_at (pubkey ++ 0xac ∷ []) n ≡ 0xac
  byte_behind =
      subst (λ (k : ℕ). byte_at (pubkey ++ 0xac ∷ []) k ≡ 0xac) h (byte_at-append pubkey 0xac [])

  take_before : take n (pubkey ++ 0xac ∷ []) ≡ pubkey
  take_before =
      subst (λ (k : ℕ). take k (pubkey ++ 0xac ∷ []) ≡ pubkey) h (take-append pubkey (0xac ∷ []))

p2pk_of_33 :
    (pubkey : Bytes)
    → length pubkey ≡ 33
    → P2pk.extract_pubkey (33 ∷ (pubkey ++ 0xac ∷ [])) ≡ ok pubkey
unfolding P2pk.extract_pubkey
p2pk_of_33 pubkey h =
    rw (length-append pubkey (0xac ∷ []), h, byte_behind pubkey 33 h, take_before pubkey 33 h) refl

p2pk_of_65 :
    (pubkey : Bytes)
    → length pubkey ≡ 65
    → P2pk.extract_pubkey (65 ∷ (pubkey ++ 0xac ∷ [])) ≡ ok pubkey
unfolding P2pk.extract_pubkey
p2pk_of_65 pubkey h =
    rw (length-append pubkey (0xac ∷ []), h, byte_behind pubkey 65 h, take_before pubkey 65 h) refl

p2pk_extracts :
    (pubkey s : Bytes) → P2pk.create_script_pubkey pubkey ≡ ok s → P2pk.extract_pubkey s ≡ ok pubkey
unfolding P2pk.create_script_pubkey
p2pk_extracts pubkey s h = ground (arith, p2pk_of_33 pubkey, p2pk_of_65 pubkey)

-- What the tests of extract_pubkey have found: a key of 33 or 65 bytes.
abbrev FoundKey : ℕ → Bytes → ℕ → Bytes → Type 0
FoundKey a r n pubkey =
    (suc (length r) ≡ suc (suc n)) × (a ≡ n) × (byte_at r n ≡ 0xac) × (take n r ≡ pubkey)

p2pk_tests :
    (l a b c : ℕ) (x y pubkey : Bytes)
    → (if (l == 35) && ((a == 0x21) && (b == 0xac))
        then ok x
        else (if (l == 67) && ((a == 0x41) && (c == 0xac)) then ok y else err Error.value_error))
      ≡ ok pubkey
    → ((l ≡ 35) × (a ≡ 33) × (b ≡ 0xac) × (x ≡ pubkey))
      ⊎ ((l ≡ 67) × (a ≡ 65) × (c ≡ 0xac) × (y ≡ pubkey))
p2pk_tests l a b c x y pubkey h = ground arith

p2pk_found :
    (pubkey : Bytes) (a : ℕ) (r : Bytes)
    → P2pk.extract_pubkey (a ∷ r) ≡ ok pubkey
    → FoundKey a r 33 pubkey ⊎ FoundKey a r 65 pubkey
unfolding P2pk.extract_pubkey
p2pk_found pubkey a r h =
    p2pk_tests (suc (length r)) a (byte_at r 33) (byte_at r 65) (take 33 r) (take 65 r) pubkey h

found_length :
    (a : ℕ) (r : Bytes) (n : ℕ) (pubkey : Bytes) → FoundKey a r n pubkey → length pubkey ≡ n
found_length a r n pubkey (l, e, b, t) = omega (arith, length-take n r, ap length t, l)

found_script :
    (a : ℕ) (r : Bytes) (n : ℕ) (pubkey : Bytes) → FoundKey a r n pubkey → pubkey ++ 0xac ∷ [] ≡ r
found_script a r n pubkey (l, e, b, t) =
    ap (λ (x : Bytes). x ++ 0xac ∷ []) (sym t)
    ∙ ap (λ (y : ℕ). take n r ++ y ∷ []) (sym b)
    ∙ take-byte_at n r (omega (arith, l))

p2pk_creates :
    (pubkey s : Bytes) → P2pk.extract_pubkey s ≡ ok pubkey → P2pk.create_script_pubkey pubkey ≡ ok s
unfolding P2pk.create_script_pubkey
p2pk_creates pubkey [] h = unfold P2pk.extract_pubkey in ground arith
p2pk_creates pubkey (a ∷ r) h = elim (p2pk_found pubkey a r h) [
  | inl f ↦ rw (found_length a r 33 pubkey f, found_script a r 33 pubkey f, f.1) refl
  | inr f ↦ rw (found_length a r 65 pubkey f, found_script a r 65 pubkey f, f.1) refl
]

-- The modules of script_types/ that put a script together from byte strings, and their functions.
pub data Template : Type 0 where
  p2pk p2wpkh p2wsh p2tr : Template

abbrev pub create : Template → Bytes → Result Bytes
create Template.p2pk x = P2pk.create_script_pubkey x
create Template.p2wpkh x = P2wpkh.create_script_pubkey x
create Template.p2wsh x = P2wsh.create_script_pubkey x
create Template.p2tr x = P2tr.create_script_pubkey x

abbrev pub extract : Template → Bytes → Result Bytes
extract Template.p2pk s = P2pk.extract_pubkey s
extract Template.p2wpkh s = P2wpkh.extract_pubkey_hash s
extract Template.p2wsh s = P2wsh.extract_script_hash s
extract Template.p2tr s = P2tr.extract_pubkey s

-- For P2PK, P2WPKH, P2WSH and P2TR: create_script_pubkey makes the script s of a key or a hash x
-- exactly where the module's function that extracts the key or the hash answers x for s.
pub create-extract : (t : Template) (x s : Bytes) → (create t x ≡ ok s) ↔ (extract t s ≡ ok x)
create-extract Template.p2pk x s = (p2pk_extracts x s, p2pk_creates x s)
create-extract Template.p2wpkh x s = (p2wpkh_extracts x s, p2wpkh_creates x s)
create-extract Template.p2wsh x s = (p2wsh_extracts x s, p2wsh_creates x s)
create-extract Template.p2tr x s = (p2tr_extracts x s, p2tr_creates x s)
