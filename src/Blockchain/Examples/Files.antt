-- ===== src/Blockchain/Examples/Files.antt =====
-- The theorems on block files, at a masked file of two blocks and one of a single block.
use bitcoin_script.Prelude.{◌≡◌, refl, [], ◌∷◌, some, Bytes, arith}
use bitcoin_script.Blockchain.BlockFile.{XorKey, Parser, iter_blocks}
use bitcoin_script.Blockchain.BlockFile.Written.{Stored, whole, files_of, iter_blocks-files_of}
use bitcoin_script.Blockchain.Taproot.{zeros}

abbrev parser : Parser Bytes
parser = record {
  magic = 0xf9 ∷ 0xbe ∷ 0xb4 ∷ 0xd9 ∷ [];
  key = XorKey.xor_key 7 (200 ∷ 13 ∷ []);
  deserialize = some;
}

abbrev stored : Bytes → Stored Bytes
stored raw = record { raw = raw; block = raw }

iter_blocks-files_of_example :
    iter_blocks parser 1 (
      files_of parser
        ((stored (5 ∷ 6 ∷ []) ∷ stored (7 ∷ []) ∷ []) ∷ (stored (8 ∷ 9 ∷ []) ∷ []) ∷ []))
    ≡ whole ((7 ∷ []) ∷ (8 ∷ 9 ∷ []) ∷ [])
iter_blocks-files_of_example =
    iter_blocks-files_of parser 1
      ((stored (5 ∷ 6 ∷ []) ∷ stored (7 ∷ []) ∷ []) ∷ (stored (8 ∷ 9 ∷ []) ∷ []) ∷ []) refl
      (((omega arith, refl), ((omega arith, refl), tt)), (((omega arith, refl), tt), tt))

abbrev long_block : Bytes
long_block = zeros 81
