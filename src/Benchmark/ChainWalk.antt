-- ===== src/Benchmark/ChainWalk.antt =====
-- `_walk_chain` of benchmark/extractor.py, beside `_load_chain` of the block verifier.
use bitcoin_script.Prelude.{
  ℕ, zero, suc, ◌+◌, ◌<◌, ◌≡◌, refl, sym, ap, ◌∙◌, Bool, true, Option, none, some, List, [], ◌∷◌,
  Bytes, length, if◌then◌else◌, leb, arith,
}
use bitcoin_script.Blockchain.BlockFile.{Yields, finished}
use bitcoin_script.Blockchain.Chain.{
  Header, Index, look_up, note_header, next_hash, genesis_prev, gather, yield_block, walk,
  load_chain,
}
use bitcoin_script.Blockchain.Chain.Scanned.{noted, gather-noted}

module _ {Place : Type 0} where
  -- The loop over the headers.
  unfoldable pub scan_all : Index Place → List (Header Place) → Index Place
  scan_all index [] = index
  scan_all index (header ∷ headers) = scan_all (note_header index header) headers

module _ {Place B : Type 0} (read : Place → Option B) where
  -- The loop that yields the blocks, on fuel.
  unfoldable pub walk_up : ℕ → Index Place → ℕ → ℕ → Bytes → Yields (ℕ × B)
  walk_up zero index last height current = finished
  walk_up (suc fuel) index last height current =
      let rest = walk_up fuel index last (height + 1) (next_hash index current) in
      elim (look_up current index.location) [
        | none ↦ finished
        | some place ↦
            yield_block true height (read place) (if leb last height then finished else rest)
      ]

  unfoldable pub walk_chain : ℕ → List (Header Place) → ℕ → Yields (ℕ × B)
  walk_chain fuel headers last =
      let index = scan_all (record { prev_to_hash = []; location = [] }) headers in
      elim (look_up genesis_prev index.prev_to_hash) [
        | none ↦ finished
        | some hash ↦ walk_up fuel index last 0 hash
      ]

  scan_all-noted :
      (index : Index Place) (headers : List (Header Place))
      → scan_all index headers ≡ noted index headers
  unfolding scan_all noted
  scan_all-noted index [] = refl
  scan_all-noted index (header ∷ headers) = scan_all-noted (note_header index header) headers

  walk_up-walk :
      (fuel : ℕ) (index : Index Place) (last height : ℕ) (current : Bytes)
      → walk_up fuel index last height current ≡ walk read fuel index 0 (some last) height current
  unfolding walk_up walk
  walk_up-walk zero index last height current = refl
  walk_up-walk (suc fuel) index last height current =
      by_place (look_up current index.location) (leb 0 height)
        (walk_up fuel index last (height + 1) (next_hash index current))
        (walk read fuel index 0 (some last) (height + 1) (next_hash index current)) (ground arith)
        (walk_up-walk fuel index last (height + 1) (next_hash index current))
    where
      by_place :
          (found : Option Place) (yielded : Bool) (rest rest' : Yields (ℕ × B))
          → yielded ≡ true
          → rest ≡ rest'
          → elim found [
            | none ↦ finished {A = ℕ × B}
            | some place ↦
                yield_block true height (read place) (if leb last height then finished else rest)
          ]
            ≡ elim found [
              | none ↦ finished {A = ℕ × B}
              | some place ↦
                  yield_block yielded height
                    (read place)
                    (if leb last height then finished else rest')
            ]
      by_place none yielded rest rest' e same = refl
      by_place (some place) yielded rest rest' e same = rw (e, same) refl

  -- For fewer than 50000 headers _walk_chain of the benchmark yields what _load_chain of the block
  -- verifier yields from height 0 to the same end.
  pub walk_chain-load_chain :
      (fuel : ℕ) (headers : List (Header Place)) (last : ℕ)
      → length headers < 50000
      → walk_chain fuel headers last ≡ load_chain read fuel headers 0 (some last)
  unfolding walk_chain load_chain
  walk_chain-load_chain fuel headers last few =
      let empty : Index Place = record { prev_to_hash = []; location = [] } in
      ap
        (λ (index : Index Place). elim (look_up genesis_prev index.prev_to_hash) [
          | none ↦ finished {A = ℕ × B}
          | some hash ↦ walk_up fuel index last 0 hash
        ])
        (scan_all-noted empty headers
          ∙ sym (gather-noted fuel last 0 empty headers (omega (arith, few))))
      ∙ walks (gather fuel last 0 empty headers)
    where
      walks :
          (index : Index Place)
          → elim (look_up genesis_prev index.prev_to_hash) [
            | none ↦ finished {A = ℕ × B}
            | some hash ↦ walk_up fuel index last 0 hash
          ]
            ≡ elim (look_up genesis_prev index.prev_to_hash) [
              | none ↦ finished {A = ℕ × B}
              | some hash ↦ walk read fuel index 0 (some last) 0 hash
            ]
      walks index = by_first (look_up genesis_prev index.prev_to_hash)
        where
          by_first :
              (found : Option Bytes)
              → elim found [
                | none ↦ finished {A = ℕ × B}
                | some hash ↦ walk_up fuel index last 0 hash
              ]
                ≡ elim found [
                  | none ↦ finished {A = ℕ × B}
                  | some hash ↦ walk read fuel index 0 (some last) 0 hash
                ]
          by_first none = refl
          by_first (some hash) = walk_up-walk fuel index last 0 hash
