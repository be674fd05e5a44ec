-- ===== src/Engine/Operations/Dispatch.antt =====
-- The table of handlers and the disabled opcodes (engine/operations.py).
use bitcoin_script.Prelude.{ℕ, Bool, false, ◌||◌, List, [], ◌∷◌, if◌then◌else◌, ◌==◌}
use bitcoin_script.Engine.Library.{Hashes}
use bitcoin_script.Engine.Stack.{Error, Result, ok, err, Action}
use bitcoin_script.Engine.Operations.StackOps.{
  op_dup, op_drop, op_swap, op_over, op_rot, op_pick, op_roll, op_2dup, op_3dup, op_2drop, op_2swap,
  op_2over, op_2rot, op_ifdup, op_depth, op_nip, op_tuck, op_size, op_equal, op_verify,
  op_equalverify,
}
use bitcoin_script.Engine.Operations.ArithOps.{
  op_1add, op_1sub, op_negate, op_abs, op_not, op_0notequal, op_add, op_sub, op_booland, op_boolor,
  op_numequal, op_numequalverify, op_numnotequal, op_lessthan, op_greaterthan, op_lessthanorequal,
  op_greaterthanorequal, op_min, op_max, op_within,
}
use bitcoin_script.Engine.Operations.CryptoOps.{
  op_ripemd160, op_sha1, op_sha256, op_hash160, op_hash256,
}

-- `n in s` for a set of numbers.
abbrev pub contains : List ℕ → ℕ → Bool
contains [] n = false
contains (x ∷ xs) n = n == x || contains xs n

abbrev pub disabled : List ℕ
disabled =
    0x7e ∷ 0x7f ∷ 0x80 ∷ 0x81 ∷ 0x83 ∷ 0x84 ∷ 0x85 ∷ 0x86 ∷ 0x8d ∷ 0x8e ∷ 0x95 ∷ 0x96 ∷ 0x97 ∷ 0x98
    ∷ 0x99 ∷ []

-- `_HANDLERS`
unfoldable pub handlers : Hashes → List (ℕ × Action (Unit {0}))
handlers h =
    (0x75, op_drop)
    ∷ (0x76, op_dup)
    ∷ (0x77, op_nip)
    ∷ (0x78, op_over)
    ∷ (0x79, op_pick)
    ∷ (0x7a, op_roll)
    ∷ (0x7b, op_rot)
    ∷ (0x7c, op_swap)
    ∷ (0x7d, op_tuck)
    ∷ (0x6d, op_2drop)
    ∷ (0x6e, op_2dup)
    ∷ (0x6f, op_3dup)
    ∷ (0x70, op_2over)
    ∷ (0x71, op_2rot)
    ∷ (0x72, op_2swap)
    ∷ (0x73, op_ifdup)
    ∷ (0x74, op_depth)
    ∷ (0x82, op_size)
    ∷ (0x87, op_equal)
    ∷ (0x88, op_equalverify)
    ∷ (0x8b, op_1add)
    ∷ (0x8c, op_1sub)
    ∷ (0x8f, op_negate)
    ∷ (0x90, op_abs)
    ∷ (0x91, op_not)
    ∷ (0x92, op_0notequal)
    ∷ (0x93, op_add)
    ∷ (0x94, op_sub)
    ∷ (0x9a, op_booland)
    ∷ (0x9b, op_boolor)
    ∷ (0x9c, op_numequal)
    ∷ (0x9d, op_numequalverify)
    ∷ (0x9e, op_numnotequal)
    ∷ (0x9f, op_lessthan)
    ∷ (0xa0, op_greaterthan)
    ∷ (0xa1, op_lessthanorequal)
    ∷ (0xa2, op_greaterthanorequal)
    ∷ (0xa3, op_min)
    ∷ (0xa4, op_max)
    ∷ (0xa5, op_within)
    ∷ (0xa6, op_ripemd160 h)
    ∷ (0xa7, op_sha1 h)
    ∷ (0xa8, op_sha256 h)
    ∷ (0xa9, op_hash160 h)
    ∷ (0xaa, op_hash256 h)
    ∷ (0x69, op_verify)
    ∷ []

find_handler : ℕ → List (ℕ × Action (Unit {0})) → Result (Action (Unit {0}))
find_handler opcode [] = err Error.key_error
find_handler opcode ((key, handler) ∷ rest) =
    if opcode == key then ok handler else find_handler opcode rest

unfoldable pub get_handler : Hashes → ℕ → Result (Action (Unit {0}))
unfolding find_handler handlers
get_handler h opcode =
    if contains disabled opcode then err Error.op_disabled else find_handler opcode (handlers h)
