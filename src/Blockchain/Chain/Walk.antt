-- ===== src/Blockchain/Chain/Walk.antt =====
-- The second pass of `_load_chain`, on an index that leads from each block to the next.
use bitcoin_script.Prelude.{
  ℕ, zero, suc, ◌+◌, ◌≡◌, ◌≤◌, refl, sym, ap, ◌∙◌, Bool, true, false, not, ◌&&◌, Option, none, some,
  List, [], ◌∷◌, Bytes, length, if◌then◌else◌, leb, arith,
}
use bitcoin_script.Blockchain.BlockFile.{Yields, finished}
use bitcoin_script.Blockchain.BlockFile.Written.{whole}
use bitcoin_script.Blockchain.Chain.{
  Header, Index, look_up, next_hash, at_end, behind_end, yield_block, walk,
}

abbrev pub in_range : ℕ → Option ℕ → ℕ → Bool
in_range start last height = leb start height && not (behind_end last height)

-- The blocks with their heights, from `height` on, that are in the range.
abbrev pub numbered : {H B : Type 0} → ℕ → Option ℕ → ℕ → List (H × B) → List (ℕ × B)
numbered start last height [] = []
numbered start last height ((header, block) ∷ links) =
    let rest = numbered start last (height + 1) links in
    if in_range start last height then (height, block) ∷ rest else rest

-- The index leads from `current` through the blocks, and the last has no successor that is known.
abbrev pub Follows :
    {Place B : Type 0} → (Place → Option B) → Index Place → Bytes → List (Header Place × B) → Type 0
Follows read index current [] = look_up current index.location ≡ none
Follows read index current ((header, block) ∷ links) =
    (look_up current index.location ≡ some header.place)
    × (read header.place ≡ some block)
    × Follows read index (next_hash index current) links

module _ {H B : Type 0} (start : ℕ) (last : Option ℕ) where
  out_of_range :
      (height : ℕ) (links : List (H × B))
      → behind_end last height ≡ true
      → numbered start last height links ≡ []
  out_of_range height [] e = refl
  out_of_range height ((header, block) ∷ links) e =
      rw
        (
          out_of_range (height + 1) links (further last height e),
          none_in (leb start height) (behind_end last height) e,
        )
        refl
    where
      none_in : (a b : Bool) → b ≡ true → (a && not b) ≡ false
      none_in true b h = ap not h
      none_in false b h = refl

      further :
          (last : Option ℕ) (height : ℕ)
          → behind_end last height ≡ true
          → behind_end last (height + 1) ≡ true
      further none height h = h
      further (some l) height h = ground (arith, h)

end_then_behind :
    (last : Option ℕ) (height : ℕ) → at_end last height ≡ true → behind_end last (height + 1) ≡ true
end_then_behind none height e = e
end_then_behind (some l) height e = ground (arith, e)

not_behind :
    (last : Option ℕ) (height : ℕ)
    → at_end last height ≡ false
    → behind_end last (height + 1) ≡ false
not_behind none height e = e
not_behind (some l) height e = ground (arith, e)

module _ {Place B : Type 0} (read : Place → Option B) (index : Index Place) (start : ℕ)
    (last : Option ℕ) where
  yield_numbered :
      (now behind : Bool) (height : ℕ) (block : B) (more : List (ℕ × B))
      → behind ≡ false
      → yield_block now height (some block) (whole more)
        ≡ whole (if now && not behind then (height, block) ∷ more else more)
  yield_numbered true true height block more n = absurd (cc n)
  yield_numbered true false height block more n = refl
  yield_numbered false behind height block more n = refl

  -- What the walk goes on with, behind a block.
  goes_on :
      (stop : Bool) (more : Yields (ℕ × B)) (links : List (ℕ × B))
      → (stop ≡ true → links ≡ [])
      → (stop ≡ false → more ≡ whole links)
      → (if stop then finished else more) ≡ whole links
  goes_on true more links ends continues = ap whole (sym (ends refl))
  goes_on false more links ends continues = continues refl

  walk_step :
      (fuel height : ℕ) (current : Bytes) (place : Place)
      → look_up current index.location ≡ some place
      → walk read (suc fuel) index start last height current
        ≡ yield_block (leb start height) height (read place) (
            if at_end last height
            then finished
            else walk read fuel index start last (height + 1) (next_hash index current))
  unfolding walk
  walk_step fuel height current place here = rw (walk, here) refl

  pub walk-Follows :
      (fuel height : ℕ) (current : Bytes) (links : List (Header Place × B))
      → Follows read index current links
      → behind_end last height ≡ false
      → length links ≤ fuel
      → walk read fuel index start last height current ≡ whole (numbered start last height links)
  unfolding walk
  walk-Follows zero height current [] f n enough = refl
  walk-Follows zero height current (link ∷ links) f n enough = absurd (omega (arith, enough))
  walk-Follows (suc fuel) height current [] f n enough = rw (walk, f) refl
  walk-Follows (suc fuel) height current ((header, block) ∷ links) (here, readable, next) n enough =
      let more = walk read fuel index start last (height + 1) (next_hash index current) in
      let rest = numbered start last (height + 1) links in
      walk_step fuel height current header.place here
      ∙ ap
          (λ (b : Option B).
            yield_block (leb start height) height b (if at_end last height then finished else more))
          readable
      ∙ ap (yield_block (leb start height) height (some block)) (
          goes_on (at_end last height) more rest
            (λ e. out_of_range start last (height + 1) links (end_then_behind last height e))
            (λ e.
              walk-Follows fuel (height + 1) (next_hash index current) links next
                (not_behind last height e) (omega (arith, enough))))
      ∙ yield_numbered (leb start height) (behind_end last height) height block rest n
