-- ===== src/ScriptTypes/Classifier.antt =====
-- script_types/classifier.py
use bitcoin_script.Prelude.{
  ◌-◌, Bool, true, false, not, ◌&&◌, Bytes, length, byte_at, last_byte, if◌then◌else◌, ◌==◌, leb,
  ltb,
}

pub data ScriptType : Type 0 where
  p2pkh p2sh p2wpkh p2wsh p2tr p2pk multisig null_data nonstandard : ScriptType

unfoldable pub is_p2pkh : Bytes → Bool
is_p2pkh r =
    (length r == 25)
    && ((byte_at r 0 == 0x76)
        && ((byte_at r 1 == 0xa9)
            && ((byte_at r 2 == 0x14) && ((byte_at r 23 == 0x88) && (byte_at r 24 == 0xac)))))

unfoldable pub is_p2sh : Bytes → Bool
is_p2sh r =
    (length r == 23) && ((byte_at r 0 == 0xa9) && ((byte_at r 1 == 0x14) && (byte_at r 22 == 0x87)))

unfoldable pub is_p2wpkh : Bytes → Bool
is_p2wpkh r = (length r == 22) && ((byte_at r 0 == 0x00) && (byte_at r 1 == 0x14))

unfoldable pub is_p2wsh : Bytes → Bool
is_p2wsh r = (length r == 34) && ((byte_at r 0 == 0x00) && (byte_at r 1 == 0x20))

unfoldable pub is_p2tr : Bytes → Bool
is_p2tr r = (length r == 34) && ((byte_at r 0 == 0x51) && (byte_at r 1 == 0x20))

unfoldable pub is_p2pk : Bytes → Bool
is_p2pk r =
    if (length r == 35) && ((byte_at r 0 == 0x21) && (byte_at r 34 == 0xac))
    then true
    else (if (length r == 67) && ((byte_at r 0 == 0x41) && (byte_at r 66 == 0xac))
        then true
        else false)

unfoldable pub is_multisig : Bytes → Bool
is_multisig r =
    if ltb (length r) 3
    then false
    else (if not (last_byte r == 0xae)
        then false
        else (if not (leb 0x51 (byte_at r (length r - 2)) && leb (byte_at r (length r - 2)) 0x60)
            then false
            else (if not (leb 0x51 (byte_at r 0) && leb (byte_at r 0) 0x60) then false else true)))

unfoldable pub is_null_data : Bytes → Bool
is_null_data r = leb 1 (length r) && (byte_at r 0 == 0x6a)

unfoldable pub classify : Bytes → ScriptType
classify script =
    if is_p2pkh script
    then ScriptType.p2pkh
    else (if is_p2sh script
        then ScriptType.p2sh
        else (if is_p2wpkh script
            then ScriptType.p2wpkh
            else (if is_p2wsh script
                then ScriptType.p2wsh
                else (if is_p2tr script
                    then ScriptType.p2tr
                    else (if is_p2pk script
                        then ScriptType.p2pk
                        else (if is_multisig script
                            then ScriptType.multisig
                            else (if is_null_data script
                                then ScriptType.null_data
                                else ScriptType.nonstandard)))))))
