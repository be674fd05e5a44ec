-- ===== src/Blockchain/Chain/Order.antt =====
-- `_load_chain`: the blocks in the order of the chain, in whatever order the files have them.
use bitcoin_script.Prelude.{
  ℕ, ◌≡◌, ◌≢◌, ◌≤◌, ◌<◌, refl, sym, ap, ◌∙◌, false, Option, none, some, List, [], ◌∷◌, Bytes,
  length, arith,
}
use mathlib.Core.Path.{subst}
use bitcoin_script.Blockchain.BlockFile.Written.{whole}
use bitcoin_script.Blockchain.Chain.{
  Header, Index, look_up, genesis_prev, next_hash, behind_end, target, load_chain, walk,
}
use bitcoin_script.Blockchain.Chain.Walk.{numbered, Follows, walk-Follows}
use bitcoin_script.Blockchain.BlockFile.{finished}
use bitcoin_script.Blockchain.Chain.Scanned.{
  IsAmong, IsFirst, IsFirst-IsAmong, noted, gather-noted, location-noted, prev-noted,
  location_found, prev_found,
}

-- Headers, fewer than 50000, of which no two name one block with different places; a hash is not empty.
pub record IsScan {Place : Type 0} (headers : List (Header Place)) : Type 0 where
  pub few : length headers < 50000
  pub same_place :
      (a b : Header Place)
      → IsAmong a headers
      → IsAmong b headers
      → b.block_hash ≡ a.block_hash
      → b.place ≡ a.place
  pub named : (a : Header Place) → IsAmong a headers → a.block_hash ≢ []

-- Blocks, each the first among the headers that is behind the one before, up to one that nothing is
-- behind.
abbrev pub Linked :
    {Place B : Type 0}
    → (Place → Option B)
    → List (Header Place)
    → Bytes
    → List (Header Place × B)
    → Type 0
Linked {Place = Place} read headers previous [] =
    (b : Header Place) → IsAmong b headers → b.prev_hash ≢ previous
Linked read headers previous ((header, block) ∷ links) =
    IsFirst header headers
    × (header.prev_hash ≡ previous)
    × (read header.place ≡ some block)
    × Linked read headers header.block_hash links

module _ {Place B : Type 0} (read : Place → Option B) (headers : List (Header Place))
    (scan : IsScan headers) where
  abbrev empty_index : Index Place
  empty_index = record { prev_to_hash = []; location = [] }

  abbrev full_index : Index Place
  full_index = noted empty_index headers

  successor :
      (previous : Bytes) (header : Header Place)
      → IsFirst header headers
      → header.prev_hash ≡ previous
      → look_up previous full_index.prev_to_hash ≡ some header.block_hash
  unfolding look_up
  successor previous header first behind =
      ap (λ (k : Bytes). look_up k full_index.prev_to_hash) (sym behind)
      ∙ prev_found header empty_index headers first refl

  no_successor :
      (previous : Bytes)
      → Linked read headers previous []
      → look_up previous full_index.prev_to_hash ≡ none
  unfolding look_up
  no_successor previous end =
      prev-noted (λ o. o ≡ none) previous empty_index headers (λ b among h. absurd (end b among h))
        refl

  next_is :
      (previous hash : Bytes)
      → look_up previous full_index.prev_to_hash ≡ some hash
      → next_hash full_index previous ≡ hash
  unfolding next_hash
  next_is previous hash e = rw (next_hash, e) refl

  next_none :
      (previous : Bytes)
      → look_up previous full_index.prev_to_hash ≡ none
      → next_hash full_index previous ≡ []
  unfolding next_hash
  next_none previous e = rw (next_hash, e) refl

  nameless : look_up [] full_index.location ≡ none
  unfolding look_up
  nameless =
      location-noted (λ o. o ≡ none) [] empty_index headers
        (λ b among h. absurd (scan.named b among h)) refl

  next-Follows :
      (previous : Bytes) (links : List (Header Place × B))
      → Linked read headers previous links
      → Follows read full_index (next_hash full_index previous) links
  next-Follows previous [] end =
      ap (λ (k : Bytes). look_up k full_index.location)
        (next_none previous (no_successor previous end))
      ∙ nameless
  next-Follows previous ((header, block) ∷ links) (foremost, behind, readable, more) =
      let among = IsFirst-IsAmong header headers foremost in
      let here = next_is previous header.block_hash (successor previous header foremost behind) in
      (
        ap (λ (k : Bytes). look_up k full_index.location) here
            ∙ location_found header empty_index headers among
                (λ b there. scan.same_place header b among there),
        readable,
        subst (λ (k : Bytes). Follows read full_index (next_hash full_index k) links) (sym here)
            (next-Follows header.block_hash links more),
      )

  start_in_range : (last : Option ℕ) → behind_end last 0 ≡ false
  start_in_range none = refl
  start_in_range (some l) = ground arith

  from_genesis :
      (fuel start : ℕ) (last : Option ℕ) (links : List (Header Place × B))
      → Linked read headers genesis_prev links
      → length links ≤ fuel
      → elim (look_up genesis_prev full_index.prev_to_hash) [
        | none ↦ finished
        | some hash ↦ walk read fuel full_index start last 0 hash
      ]
        ≡ whole (numbered start last 0 links)
  from_genesis fuel start last [] end enough = rw (no_successor genesis_prev end) refl
  from_genesis fuel start last ((header, block) ∷ links) linked enough =
      let (among, behind, _, _) = linked in
      let first = successor genesis_prev header among behind in
      rw (first) (
        walk-Follows read full_index start last fuel 0 header.block_hash ((header, block) ∷ links)
          (subst (λ (k : Bytes). Follows read full_index k ((header, block) ∷ links))
            (next_is genesis_prev header.block_hash first)
            (next-Follows genesis_prev ((header, block) ∷ links) linked))
          (start_in_range last) enough)

-- For fewer than 50000 headers, of which no two name one block with different places: take the chain
-- from the genesis block in which each block is the first scanned of those behind the one before, up to
-- a block that nothing is behind, and whose blocks can be read. With fuel for each block of this chain
-- _load_chain yields its blocks at the heights from start to end, or from start on if there is no end,
-- in order, each with its height, and raises nothing, in whatever order the other headers are scanned.
pub load_chain-numbered :
    {Place B : Type 0} (read : Place → Option B) (headers : List (Header Place))
    (links : List (Header Place × B)) (fuel start : ℕ) (last : Option ℕ)
    → IsScan headers
    → Linked read headers genesis_prev links
    → length links ≤ fuel
    → load_chain read fuel headers start last ≡ whole (numbered start last 0 links)
unfolding load_chain
load_chain-numbered {Place = Place} {B = B} read headers links fuel start last scan linked enough =
    let empty : Index Place = record { prev_to_hash = []; location = [] } in
    ap
      (λ (index : Index Place). elim (look_up genesis_prev index.prev_to_hash) [
        | none ↦ finished {A = ℕ × B}
        | some hash ↦ walk read fuel index start last 0 hash
      ])
      (gather-noted fuel (target start last) 0 empty headers (omega (arith, scan.few)))
    ∙ from_genesis read headers scan fuel start last links linked enough
