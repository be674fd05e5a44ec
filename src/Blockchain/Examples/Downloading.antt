-- ===== src/Blockchain/Examples/Downloading.antt =====
-- The links of three blocks that a node answers.
use bitcoin_script.Prelude.{ℕ, zero, suc, ◌<◌, ◌≡◌, ◌↔◌, refl, none, some, [], ◌∷◌, true, false}
use bitcoin_script.Blockchain.Downloader.{
  RpcBlock, verify_links, verify_chain_links, IsLinked, verify_chain_links-IsLinked,
}

abbrev get_block : ℕ → RpcBlock
get_block zero = record { hash = 7 ∷ []; previousblockhash = none }
get_block (suc zero) = record { hash = 8 ∷ []; previousblockhash = some (7 ∷ []) }
get_block (suc (suc h)) = record { hash = 9 ∷ []; previousblockhash = some (7 ∷ []) }

-- The first two blocks are linked, and the third one names another block than the second.
linked_test :
    (verify_chain_links get_block 2 (some 1) ≡ true) × (verify_chain_links get_block 2 none ≡ false)
unfolding verify_chain_links verify_links
linked_test = (refl, refl)

verify_chain_links-IsLinked_example :
    (verify_chain_links get_block 2 (some 1) ≡ true) ↔ ((h : ℕ) → h < 1 → IsLinked get_block 2 h)
verify_chain_links-IsLinked_example = verify_chain_links-IsLinked get_block 2 (some 1)
