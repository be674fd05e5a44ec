-- ===== src/ScriptTypes/Keys.antt =====
-- The keys of a bare multisig script (script_types/multisig.py).
use bitcoin_script.Prelude.{
  drop_sum, ℕ, zero, suc, ◌+◌, ◌-◌, ◌≤◌, ◌≡◌, refl, sym, ap, ◌∙◌, true, List, [], ◌∷◌, ◌++◌, Bytes,
  length, take, drop, byte_at, last_byte, length-append, take-append, drop-append, append_assoc,
  append-nil, arith,
}
use bitcoin_script.Errors.{ok}
use bitcoin_script.ScriptTypes.RoundTrip.{byte_at-append}
use bitcoin_script.ScriptTypes.Multisig.{
  keys_from, extract_pubkeys, second_last, valid_keys, push_all, create_script_pubkey,
}

-- What stands behind a prefix.
byte_at-drop : (p : ℕ) (r : Bytes) → byte_at r p ≡ byte_at (drop p r) 0
byte_at-drop zero r = refl
byte_at-drop (suc p) [] = ground arith
byte_at-drop (suc p) (x ∷ r) = byte_at-drop p r

module _ (r k rest : Bytes) (p : ℕ) (here : drop p r ≡ length k ∷ (k ++ rest)) where
  key_length : byte_at r p ≡ length k
  key_length = byte_at-drop p r ∙ ap (λ (t : Bytes). byte_at t 0) here

  key_start : drop (p + 1) r ≡ k ++ rest
  key_start = drop_sum p 1 (p + 1) r refl ∙ ap (λ (t : Bytes). drop 1 t) here

  key_read : take (length k) (drop (p + 1) r) ≡ k
  key_read = ap (λ (t : Bytes). take (length k) t) key_start ∙ take-append k rest

  key_end : drop (p + 1 + length k) r ≡ rest
  key_end =
      drop_sum (p + 1) (length k) (p + 1 + length k) r refl
      ∙ ap (λ (t : Bytes). drop (length k) t) key_start
      ∙ drop-append k rest

-- From the position `p`, where the keys stand in `r` and two bytes behind them, the loop reads the keys.
keys_from-push_all :
    (r : Bytes) (p : ℕ) (keys found : List Bytes) (a b : ℕ)
    → drop p r ≡ push_all keys ++ a ∷ b ∷ []
    → length r ≡ p + length (push_all keys) + 2
    → valid_keys keys ≡ true
    → keys_from r (length keys) p found ≡ ok (length r - 2, found ++ keys)
unfolding keys_from
keys_from-push_all r p [] found a b here size h =
    ap (λ (n : ℕ). ok (n, found)) (omega (arith, size))
    ∙ ap (λ (t : List Bytes). ok (length r - 2, t)) (sym (append-nil found))
keys_from-push_all r p (k ∷ keys) found a b here size h =
    let rest = push_all keys ++ a ∷ b ∷ [] in
    let shape : drop p r ≡ length k ∷ (k ++ rest) =
      here ∙ ap (λ (t : Bytes). length k ∷ t) (append_assoc k (push_all keys) (a ∷ b ∷ [])) in
    let valid : valid_keys keys ≡ true = ground arith in
    let later : keys_from r (length keys) (p + 1 + length k) (found ++ k ∷ [])
        ≡ ok (length r - 2, found ++ k ∷ keys) =
      keys_from-push_all r (p + 1 + length k) keys (found ++ k ∷ []) a b (key_end r k rest p shape)
        (omega (arith, size, length-append k (push_all keys))) valid
      ∙ ap (λ (t : List Bytes). ok (length r - 2, t)) (append_assoc found (k ∷ []) keys) in
    rw (key_length r k rest p shape, key_read r k rest p shape, later) ground (arith, size, h)

last_byte-append : (xs : Bytes) (a b : ℕ) → last_byte (xs ++ a ∷ b ∷ []) ≡ b
last_byte-append [] a b = refl
last_byte-append (x ∷ []) a b = refl
last_byte-append (x ∷ y ∷ xs) a b = last_byte-append (y ∷ xs) a b

-- The tests of extract_pubkeys pass, and the loop ends at the two last bytes.
extracts_by_tests :
    (r : Bytes) (m n : ℕ) (keys : List Bytes)
    → 3 ≤ length r
    → last_byte r ≡ 0xae
    → byte_at r 0 ≡ 0x50 + m
    → second_last r ≡ 0x50 + n
    → (1 ≤ m) × (m ≤ 16) × (1 ≤ n) × (n ≤ 16)
    → keys_from r n 1 [] ≡ ok (length r - 2, keys)
    → extract_pubkeys r ≡ ok (m, keys)
unfolding extract_pubkeys
extracts_by_tests r m n keys size last first second (m_low, m_high, n_low, n_high) loop =
    let m_back : 0x50 + m - 0x50 ≡ m = omega arith in
    let n_back : 0x50 + n - 0x50 ≡ n = omega arith in
    rw (last, first, second, m_back, n_back, loop) ground (arith, size)

module _ (m : ℕ) (keys : List Bytes) where
  abbrev start : Bytes
  start = (0x50 + m) ∷ push_all keys

  abbrev script_of : Bytes
  script_of = start ++ (0x50 + length keys) ∷ 0xae ∷ []

  script_length : length script_of ≡ length start + 2
  script_length = omega (arith, length-append (push_all keys) ((0x50 + length keys) ∷ 0xae ∷ []))

  script_middle : length script_of - 2 ≡ length start
  script_middle = omega (arith, script_length)

  script_count : second_last script_of ≡ 0x50 + length keys
  script_count =
      ap (λ (i : ℕ). byte_at script_of i) script_middle
      ∙ byte_at-append start (0x50 + length keys) (0xae ∷ [])

  script_keys :
      valid_keys keys ≡ true
      → keys_from script_of (length keys) 1 [] ≡ ok (length script_of - 2, keys)
  script_keys h =
      keys_from-push_all script_of 1 keys [] (0x50 + length keys) 0xae refl
        (omega (arith, script_length)) h

-- Where create_script_pubkey makes a bare multisig script s of m and the public keys, extract_pubkeys
-- finds m and the same keys in s.
pub extract_pubkeys-create_script_pubkey :
    (m : ℕ) (keys : List Bytes) (s : Bytes)
    → create_script_pubkey m keys ≡ ok s
    → extract_pubkeys s ≡ ok (m, keys)
unfolding create_script_pubkey
extract_pubkeys-create_script_pubkey m keys s h = ground (
  arith,
  script_length m keys,
  last_byte-append (start m keys) (0x50 + length keys) 0xae,
  script_count m keys,
  script_keys m keys,
  extracts_by_tests (script_of m keys) m (length keys) keys,
)
