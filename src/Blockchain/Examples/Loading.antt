-- ===== src/Blockchain/Examples/Loading.antt =====
-- The theorem on the order of the blocks, at three headers, of which the second block comes before the
-- first, and a block that stands behind the first too comes last.
use bitcoin_script.Prelude.{
  ℕ, ◌+◌, ◌≡◌, refl, sym, ap, ◌∙◌, inl, inr, List, [], ◌∷◌, some, length, last_byte, arith,
}
use bitcoin_script.Blockchain.BlockFile.Written.{whole}
use bitcoin_script.Blockchain.Chain.{Header, genesis_prev, load_chain}
use bitcoin_script.Blockchain.Chain.Scanned.{IsAmong}
use bitcoin_script.Blockchain.Chain.Order.{IsScan, Linked, load_chain-numbered}

abbrev genesis : Header ℕ
genesis = record { block_hash = 1 ∷ []; prev_hash = genesis_prev; place = 7 }

abbrev second : Header ℕ
second = record { block_hash = 2 ∷ []; prev_hash = 1 ∷ []; place = 8 }

abbrev stale : Header ℕ
stale = record { block_hash = 3 ∷ []; prev_hash = 1 ∷ []; place = 9 }

abbrev pub headers : List (Header ℕ)
headers = second ∷ genesis ∷ stale ∷ []

place_by_hash : (a : Header ℕ) → IsAmong a headers → a.place ≡ last_byte a.block_hash + 6
place_by_hash a (inl p) =
    ap (λ (x : Header ℕ). x.place) p ∙ ap (λ (x : Header ℕ). last_byte x.block_hash + 6) (sym p)
place_by_hash a (inr (inl p)) =
    ap (λ (x : Header ℕ). x.place) p ∙ ap (λ (x : Header ℕ). last_byte x.block_hash + 6) (sym p)
place_by_hash a (inr (inr (inl p))) =
    ap (λ (x : Header ℕ). x.place) p ∙ ap (λ (x : Header ℕ). last_byte x.block_hash + 6) (sym p)
place_by_hash a (inr (inr (inr n))) = absurd n

length-block_hash : (a : Header ℕ) → IsAmong a headers → length a.block_hash ≡ 1
length-block_hash a (inl p) = ap (λ (x : Header ℕ). length x.block_hash) p
length-block_hash a (inr (inl p)) = ap (λ (x : Header ℕ). length x.block_hash) p
length-block_hash a (inr (inr (inl p))) = ap (λ (x : Header ℕ). length x.block_hash) p
length-block_hash a (inr (inr (inr n))) = absurd n

headers-IsScan : IsScan headers
headers-IsScan = record {
  few = omega arith;
  same_place =
      λ a b p q h. place_by_hash b q ∙ ap (λ hash. last_byte hash + 6) h ∙ sym (place_by_hash a p);
  named = λ a p h. absurd (omega (arith, length-block_hash a p, ap length h));
}

nothing_behind : Linked some headers (2 ∷ []) []
nothing_behind b (inl p) h =
    absurd (omega (arith, ap last_byte (ap (λ (x : Header ℕ). x.prev_hash) (sym p) ∙ h)))
nothing_behind b (inr (inl p)) h =
    absurd (omega (arith, ap length (ap (λ (x : Header ℕ). x.prev_hash) (sym p) ∙ h)))
nothing_behind b (inr (inr (inl p))) h =
    absurd (omega (arith, ap last_byte (ap (λ (x : Header ℕ). x.prev_hash) (sym p) ∙ h)))
nothing_behind b (inr (inr (inr n))) h = absurd n

load_chain-numbered_example : load_chain some 5 headers 1 (some 3) ≡ whole ((1, 8) ∷ [])
load_chain-numbered_example =
    load_chain-numbered some headers ((genesis, 7) ∷ (second, 8) ∷ []) 5 1 (some 3) headers-IsScan
      (
        inr (λ h. absurd (omega (arith, ap length h)), inl refl),
        refl,
        refl,
        (inl refl, refl, refl, nothing_behind),
      )
      (omega arith)
