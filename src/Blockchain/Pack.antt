-- ===== src/Blockchain/Pack.antt =====
-- The encodings of blockchain/verifier.py: `struct.pack` and `_compact_size`. `none` is an exception.
pub mod Sizes
pub mod Makes
use bitcoin_script.Prelude.{
  ℕ, zero, suc, ◌+◌, ◌-◌, ◌/◌, ◌^◌, Bool, true, false, Option, none, some, List, [], ◌∷◌, ◌++◌,
  Bytes, length, if◌then◌else◌, leb, ltb,
}
use bitcoin_script.Prelude.Int.{ℤ, pos, negsuc}
use bitcoin_script.Prelude.Little.{to_le, to_bytes_le}

-- `struct.pack` of a signed number of `width` bytes, as "<i" and "<q" have it.
unfoldable pub pack_signed : ℕ → ℤ → Option Bytes
pack_signed width (pos n) = if ltb n (256 ^ width / 2) then some (to_le width n) else none
pack_signed width (negsuc n) =
    if ltb n (256 ^ width / 2) then some (to_le width (256 ^ width - 1 - n)) else none

-- `prefix + b`, where making `b` may raise.
unfoldable pub prefixed : Bytes → Option Bytes → Option Bytes
prefixed prefix none = none
prefixed prefix (some b) = some (prefix ++ b)

unfoldable pub compact_size : ℕ → Option Bytes
unfolding prefixed
compact_size n =
    if leb n 252
    then to_bytes_le 1 n
    else (if leb n 0xffff
        then prefixed (0xfd ∷ []) (to_bytes_le 2 n)
        else (if leb n 0xffffffff
            then prefixed (0xfe ∷ []) (to_bytes_le 4 n)
            else prefixed (0xff ∷ []) (to_bytes_le 8 n)))

-- `a + b`, where making either may raise.
unfoldable pub both : Option Bytes → Option Bytes → Option Bytes
both none b = none
both (some a) none = none
both (some a) (some b) = some (a ++ b)

-- Parts of a message, one behind the other.
unfoldable pub joined : List (Option Bytes) → Option Bytes
joined [] = some []
joined (part ∷ parts) = both part (joined parts)

-- `_compact_size(len(b)) + b`
unfoldable pub sized : Bytes → Option Bytes
sized b = both (compact_size (length b)) (some b)
