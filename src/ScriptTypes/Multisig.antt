-- ===== src/ScriptTypes/Multisig.antt =====
-- script_types/multisig.py
use bitcoin_script.Prelude.{
  ℕ, zero, suc, ◌+◌, ◌-◌, Bool, true, not, ◌&&◌, ◌||◌, List, [], ◌∷◌, ◌++◌, Bytes, length, take,
  drop, byte_at, last_byte, if◌then◌else◌, ◌==◌, leb, ltb,
}
use bitcoin_script.Errors.{Error, Result, ok, err}

-- The loop of `extract_pubkeys`: the rounds that are left, `pos`, and the keys found. It answers
-- `pos` and the keys.
unfoldable pub keys_from : Bytes → ℕ → ℕ → List Bytes → Result (ℕ × List Bytes)
keys_from r zero p pubkeys = ok (p, pubkeys)
keys_from r (suc n) p pubkeys =
    let key_len = byte_at r p in
    let rest = keys_from r n (p + 1 + key_len) (pubkeys ++ take key_len (drop (p + 1) r) ∷ []) in
    if leb (length r - 2) p
    then err Error.value_error
    else (if not ((key_len == 33) || (key_len == 65)) then err Error.value_error else rest)

-- `r[-2]`
abbrev pub second_last : Bytes → ℕ
second_last r = byte_at r (length r - 2)

end_of_keys : Bytes → ℕ → Result (ℕ × List Bytes) → Result (ℕ × List Bytes)
end_of_keys r m (err e) = err e
end_of_keys r m (ok (p, pubkeys)) =
    if not (p == length r - 2) then err Error.value_error else ok (m, pubkeys)

unfoldable pub extract_pubkeys : Bytes → Result (ℕ × List Bytes)
unfolding end_of_keys
extract_pubkeys r =
    if ltb (length r) 3 || not (last_byte r == 0xae)
    then err Error.value_error
    else (if not (leb 0x51 (byte_at r 0) && leb (byte_at r 0) 0x60)
        then err Error.value_error
        else (if not (leb 0x51 (second_last r) && leb (second_last r) 0x60)
            then err Error.value_error
            else end_of_keys r (byte_at r 0 - 0x50) (keys_from r (second_last r - 0x50) 1 [])))

-- `len(pk) in (33, 65)` for every key.
abbrev pub valid_keys : List Bytes → Bool
valid_keys [] = true
valid_keys (pk ∷ pks) = ((length pk == 33) || (length pk == 65)) && valid_keys pks

-- The pushes of the keys, or of the signatures.
abbrev pub push_all : List Bytes → Bytes
push_all [] = []
push_all (pk ∷ pks) = length pk ∷ (pk ++ push_all pks)

unfoldable pub create_script_pubkey : ℕ → List Bytes → Result Bytes
create_script_pubkey m pubkeys =
    let n = length pubkeys in
    if not (leb 1 m && leb m 16)
    then err Error.value_error
    else (if not (leb 1 n && leb n 16)
        then err Error.value_error
        else (if ltb n m
            then err Error.value_error
            else (if not (valid_keys pubkeys)
                then err Error.value_error
                else ok ((0x50 + m) ∷ (push_all pubkeys ++ (0x50 + n) ∷ 0xae ∷ [])))))

-- `bytes([len(sig)])` raises ValueError for 256 and more.
abbrev pub short_items : List Bytes → Bool
short_items [] = true
short_items (x ∷ xs) = ltb (length x) 256 && short_items xs

unfoldable pub create_script_sig : List Bytes → Result Bytes
create_script_sig signatures =
    if short_items signatures then ok (0x00 ∷ push_all signatures) else err Error.value_error
