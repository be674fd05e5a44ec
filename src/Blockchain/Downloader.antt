-- ===== src/Blockchain/Downloader.antt =====
-- blockchain/downloader.py: the range of blocks that is downloaded, and the check of their links. What
-- the node answers is a parameter: the hash of a block at a height and `previousblockhash`, if it is there.
use mathlib.Core.Path.{subst}
use bitcoin_script.Prelude.{
  ℕ, zero, suc, ◌+◌, ◌-◌, ◌≤◌, ◌<◌, ◌≡◌, refl, sym, ap, ◌∙◌, ◌↔◌, Bool, true, false, not, Option,
  none, some, List, [], ◌∷◌, get_elem?, Bytes, bytes_eq, bytes_eq→eq, bytes_eq_self, if◌then◌else◌,
  ◌==◌, ltb, Bool-cases, inl, inr, arith,
}

pub record RpcBlock : Type 0 where
  pub hash : Bytes
  pub previousblockhash : Option Bytes

-- `up_to_height`, or the tip of the chain.
abbrev pub or_tip : Option ℕ → ℕ → ℕ
or_tip none tip = tip
or_tip (some height) tip = height

-- `prev_hash is not None and block.get("previousblockhash") != prev_hash`
abbrev pub breaks : Option Bytes → Option Bytes → Bool
breaks none previous = false
breaks (some hash) none = true
breaks (some hash) (some previous) = not (bytes_eq previous hash)

module _ (get_block : ℕ → RpcBlock) (tip : ℕ) where
  -- The loop over `count` heights from h.
  unfoldable pub verify_links : ℕ → ℕ → Option Bytes → Bool
  verify_links zero h prev_hash = true
  verify_links (suc count) h prev_hash =
      let rest = verify_links count (h + 1) (some (get_block h).hash) in
      if breaks prev_hash (get_block h).previousblockhash then false else rest

  -- `verify_chain` of class BlockchainDownloader
  unfoldable pub verify_chain_links : Option ℕ → Bool
  verify_chain_links up_to_height = verify_links (or_tip up_to_height tip + 1) 0 none

  unfoldable pub download_from : ℕ → ℕ → List RpcBlock
  download_from zero h = []
  download_from (suc count) h = get_block h ∷ download_from count (h + 1)

  unfoldable pub download_blocks : ℕ → Option ℕ → List RpcBlock
  download_blocks start_height end_height =
      download_from (or_tip end_height tip + 1 - start_height) start_height

  -- The block at a height names the one below it.
  abbrev pub IsLinked : ℕ → Type 0
  IsLinked h = (get_block (h + 1)).previousblockhash ≡ some (get_block h).hash

  breaks-false :
      (hash : Bytes) (previous : Option Bytes)
      → breaks (some hash) previous ≡ false
      → previous ≡ some hash
  breaks-false hash none h = absurd (cc h)
  breaks-false hash (some previous) h = ap some (bytes_eq→eq previous hash (ground (arith, h)))

  both_hold : (b rest : Bool) → (if b then false else rest) ≡ true → (b ≡ false) × (rest ≡ true)
  both_hold true rest e = absurd (cc e)
  both_hold false rest e = (refl, e)

  verify_links-IsLinked :
      (count h : ℕ)
      → verify_links count (h + 1) (some (get_block h).hash) ≡ true
      → (k : ℕ) → h ≤ k
      → k < h + count
      → IsLinked k
  unfolding verify_links
  verify_links-IsLinked zero h e k low high = absurd (omega (arith, low, high))
  verify_links-IsLinked (suc count) h e k low high =
      let (first, rest) =
        both_hold (breaks (some (get_block h).hash) (get_block (h + 1)).previousblockhash)
          (verify_links count (h + 1 + 1) (some (get_block (h + 1)).hash)) e in
      elim (Bool-cases (k == h)) [
        | inl same ↦
            let here : h ≡ k = ground (arith, same) in
            subst IsLinked here
              (breaks-false (get_block h).hash (get_block (h + 1)).previousblockhash first)
        | inr other ↦
            verify_links-IsLinked count (h + 1) rest k (ground (arith, other, low))
              (omega (arith, high))
      ]

  IsLinked-verify_links :
      (count h : ℕ)
      → ((k : ℕ) → h ≤ k → k < h + count → IsLinked k)
      → verify_links count (h + 1) (some (get_block h).hash) ≡ true
  unfolding verify_links
  IsLinked-verify_links zero h linked = refl
  IsLinked-verify_links (suc count) h linked =
      let first : breaks (some (get_block h).hash) (get_block (h + 1)).previousblockhash ≡ false =
        ap (breaks (some (get_block h).hash)) (linked h (omega arith) (omega arith))
        ∙ ap not (bytes_eq_self (get_block h).hash) in
      rw (verify_links, first)
        (IsLinked-verify_links count (h + 1)
          (λ k low high. linked k (omega (arith, low)) (omega (arith, high))))

  verify_chain_links-count :
      (n : ℕ) → verify_links (n + 1) 0 none ≡ verify_links n 1 (some (get_block 0).hash)
  unfolding verify_links
  verify_chain_links-count n =
      let counted : n + 1 ≡ suc n = omega arith in ap (λ count. verify_links count 0 none) counted

  -- `verify_chain` answers True exactly where each block above the genesis block, up to the height that
  -- is given or the tip, names the hash of the block below it.
  pub verify_chain_links-IsLinked :
      (up_to_height : Option ℕ)
      → (verify_chain_links up_to_height ≡ true)
        ↔ ((h : ℕ) → h < or_tip up_to_height tip → IsLinked h)
  unfolding verify_chain_links
  verify_chain_links-IsLinked up_to_height =
      let n = or_tip up_to_height tip in
      (
        λ e h less.
            verify_links-IsLinked n 0 (sym (verify_chain_links-count n) ∙ e) h (omega arith)
              (omega (arith, less)),
        λ linked.
            verify_chain_links-count n
            ∙ IsLinked-verify_links n 0 (λ k low high. linked k (omega (arith, high))),
      )

  get_elem?-download_from :
      (count h i : ℕ)
      → get_elem? (download_from count h) i
        ≡ (if ltb i count then some (get_block (h + i)) else none)
  unfolding download_from
  get_elem?-download_from zero h i = let out : ltb i 0 ≡ false = ground arith in rw (out) refl
  get_elem?-download_from (suc count) h zero =
      let into : ltb 0 (suc count) ≡ true = ground arith in
      let same : h ≡ h + 0 = omega arith in rw (into) (ap (λ k. some (get_block k)) same)
  get_elem?-download_from (suc count) h (suc i) =
      let counted : ltb i count ≡ ltb (suc i) (suc count) = ground arith in
      let same : h + 1 + i ≡ h + suc i = omega arith in
      get_elem?-download_from count (h + 1) i
      ∙ ap (λ (into : Bool). if into then some (get_block (h + 1 + i)) else none) counted
      ∙ ap (λ k. if ltb (suc i) (suc count) then some (get_block k) else none) same

  -- The blocks that are downloaded are those from the first height to the last or the tip, in order.
  pub get_elem?-download_blocks :
      (start_height : ℕ) (end_height : Option ℕ) (i : ℕ)
      → get_elem? (download_blocks start_height end_height) i ≡ (
          if ltb i (or_tip end_height tip + 1 - start_height)
          then some (get_block (start_height + i))
          else none)
  unfolding download_blocks
  get_elem?-download_blocks start_height end_height i =
      get_elem?-download_from (or_tip end_height tip + 1 - start_height) start_height i
