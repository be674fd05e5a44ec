-- ===== src/ScriptUtils/Walk.antt =====
-- script_utils.py: the loops that walk over the opcodes and pushes of a script. A loop's list is
-- what stands at `pos` and behind; a slice past the end is cut short, as Python's is. Every round
-- takes a byte at least, so the length of the script is enough fuel.
use bitcoin_script.Prelude.{
  ℕ, zero, suc, ◌+◌, true, false, ◌&&◌, Option, none, some, List, [], ◌∷◌, ◌++◌, Bytes, length,
  take, drop, byte_at, last_byte, from_le, if◌then◌else◌, ◌==◌, leb,
}

-- What the tests of a loop find behind an opcode that pushes: the bytes that hold the size, the
-- size, and what follows them.
pub record Push : Type 0 where
  pub header : Bytes
  pub size : ℕ
  pub rest : Bytes

-- `op == 0x4C and pos < len(script)`
pushdata1 : Bytes → Option Push
pushdata1 [] = none
pushdata1 (a ∷ rest) = some (record { header = a ∷ []; size = a; rest = rest })

-- `op == 0x4D and pos + 1 < len(script)`
pushdata2 : Bytes → Option Push
pushdata2 (a ∷ b ∷ rest) =
    some (record { header = a ∷ b ∷ []; size = from_le (a ∷ b ∷ []); rest = rest })
pushdata2 _ = none

-- `op == 0x4E and pos + 3 < len(script)`
pushdata4 : Bytes → Option Push
pushdata4 (a ∷ b ∷ c ∷ d ∷ rest) =
    some (record { header = a ∷ b ∷ c ∷ d ∷ []; size = from_le (a ∷ b ∷ c ∷ d ∷ []); rest = rest })
pushdata4 _ = none

unfoldable pub next_push : ℕ → Bytes → Option Push
unfolding pushdata1 pushdata2 pushdata4
next_push op rest =
    if leb 1 op && leb op 75
    then some (record { header = []; size = op; rest = rest })
    else (if op == 0x4c
        then pushdata1 rest
        else (if op == 0x4d then pushdata2 rest else (if op == 0x4e then pushdata4 rest else none)))

unfoldable pub last_push_from : ℕ → Bytes → Option Bytes → Option Bytes
last_push_from zero script last_push = last_push
last_push_from (suc fuel) [] last_push = last_push
last_push_from (suc fuel) (op ∷ rest) last_push = elim (next_push op rest) [
  | none ↦ last_push_from fuel rest last_push
  | some p ↦ last_push_from fuel (drop p.size p.rest) (some (take p.size p.rest))
]

unfoldable pub extract_last_push : Bytes → Option Bytes
extract_last_push script = last_push_from (length script) script none

unfoldable pub push_data_from : ℕ → Bytes → List Bytes → List Bytes
push_data_from zero script items = items
push_data_from (suc fuel) [] items = items
push_data_from (suc fuel) (op ∷ rest) items = elim (next_push op rest) [
  | none ↦ push_data_from fuel rest items
  | some p ↦ push_data_from fuel (drop p.size p.rest) (items ++ take p.size p.rest ∷ [])
]

unfoldable pub extract_push_data : Bytes → List Bytes
extract_push_data script = push_data_from (length script) script []

unfoldable pub codesep_from : ℕ → Bytes → ℕ → List ℕ → List ℕ
codesep_from zero script p positions = positions
codesep_from (suc fuel) [] p positions = positions
codesep_from (suc fuel) (op ∷ rest) p positions = elim (op == 0xab) [
  | true ↦ codesep_from fuel rest (p + 1) (positions ++ (p + 1) ∷ [])
  | false ↦ elim (next_push op rest) [
    | none ↦ codesep_from fuel rest (p + 1) positions
    | some x ↦ codesep_from fuel (drop x.size x.rest) (p + 1 + length x.header + x.size) positions
  ]
]

-- The positions are counted by `p`, which may run past the end as `pos` may.
unfoldable pub find_codesep_positions : Bytes → List ℕ
find_codesep_positions script = codesep_from (length script) script 0 []

unfoldable pub remove_from : ℕ → Bytes → Bytes → Bytes
remove_from zero script result = result
remove_from (suc fuel) [] result = result
remove_from (suc fuel) (op ∷ rest) result = elim (op == 0xab) [
  | true ↦ remove_from fuel rest result
  | false ↦ elim (next_push op rest) [
    | none ↦ remove_from fuel rest (result ++ op ∷ [])
    | some x ↦
        remove_from fuel (drop x.size x.rest) (result ++ op ∷ (x.header ++ take x.size x.rest))
  ]
]

unfoldable pub remove_codeseparators : Bytes → Bytes
remove_codeseparators script = remove_from (length script) script []

-- `hashtypes.add(h)` on a set that is held as a list without repetition.
unfoldable pub add_hashtype : ℕ → List ℕ → List ℕ
add_hashtype h [] = h ∷ []
add_hashtype h (x ∷ xs) = if h == x then x ∷ xs else x ∷ add_hashtype h xs

-- A push by one of the opcodes 1 to 75 whose data looks like a DER signature.
unfoldable pub note_signature : ℕ → Bytes → List ℕ → List ℕ
note_signature op item found =
    if (leb 1 op && leb op 75) && (leb 9 (length item) && (byte_at item 0 == 0x30))
    then add_hashtype (last_byte item) found
    else found

unfoldable pub hashtypes_from : ℕ → Bytes → List ℕ → List ℕ
hashtypes_from zero script found = found
hashtypes_from (suc fuel) [] found = found
hashtypes_from (suc fuel) (op ∷ rest) found = elim (next_push op rest) [
  | none ↦ hashtypes_from fuel rest found
  | some p ↦ hashtypes_from fuel (drop p.size p.rest) (note_signature op (take p.size p.rest) found)
]

unfoldable pub extract_sig_hashtypes : Bytes → List ℕ
extract_sig_hashtypes script = hashtypes_from (length script) script []
