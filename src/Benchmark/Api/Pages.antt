-- ===== src/Benchmark/Api/Pages.antt =====
-- `_fetch_block_txs` of benchmark/api_extractor.py: the pages of a block's transactions.
use mathlib.Core.Path.{subst}
use bitcoin_script.Prelude.{
  ℕ, zero, suc, ◌*◌, ◌<◌, ◌≡◌, refl, sym, ap, ◌∙◌, false, List, [], ◌∷◌, ◌++◌, append_assoc,
  append-nil, length, take, drop, take-append-drop, length-take, length-append, length-drop, ltb,
  Bool-cases, inl, inr, arith,
}
use bitcoin_script.Errors.{Result, ok}
use bitcoin_script.Benchmark.Api.{fetch_from, fetch_block_txs}

-- The page at a start has the next 25 transactions, or those that are left.
abbrev pub IsPaged : {Tx : Type 0} → (ℕ → Result (List Tx)) → List Tx → Type 0
IsPaged {Tx = Tx} get_page txs =
    (front back : List Tx) → front ++ back ≡ txs → get_page (length front) ≡ ok (take 25 back)

module _ {Tx : Type 0} (get_page : ℕ → Result (List Tx)) where
  take_short : (n : ℕ) (xs : List Tx) → length xs < n → take n xs ≡ xs
  take_short zero xs h = absurd (omega (arith, h))
  take_short (suc n) [] h = refl
  take_short (suc n) (x ∷ xs) h = ap (λ ys. x ∷ ys) (take_short n xs (omega (arith, h)))

  long_page :
      (tx : Tx) (others : List Tx)
      → ltb (length (tx ∷ take 24 others)) 25 ≡ false
      → length (take 24 others) ≡ 24
  long_page tx others h = ground (arith, h, length-take 24 others)

  fetch_from-all :
      (fuel : ℕ) (front back : List Tx)
      → IsPaged get_page (front ++ back)
      → length back < fuel * 25
      → fetch_from get_page fuel (length front) front ≡ ok (front ++ back)
  unfolding fetch_from
  fetch_from-all zero front back paged h = absurd (omega (arith, h))
  fetch_from-all (suc fuel) front [] paged h =
      rw (fetch_from, paged front [] refl) (ap ok (sym (append-nil front)))
  fetch_from-all (suc fuel) front (tx ∷ others) paged h =
      elim (Bool-cases (ltb (length (tx ∷ take 24 others)) 25)) [
        | inl short ↦
            rw (fetch_from, paged front (tx ∷ others) refl, short)
              (ap (λ ys. ok (front ++ tx ∷ ys))
                (take_short 24 others (ground (arith, short, length-take 24 others))))
        | inr long ↦
            let page = tx ∷ take 24 others in
            let whole : (front ++ page) ++ drop 24 others ≡ front ++ tx ∷ others =
              append_assoc front page (drop 24 others)
              ∙ ap (λ ys. front ++ tx ∷ ys) (take-append-drop 24 others) in
            rw (fetch_from, paged front (tx ∷ others) refl, long)
              (ap (λ n. fetch_from get_page fuel n (front ++ page))
                  (omega (arith, length-append front page, long_page tx others long))
                ∙ fetch_from-all fuel (front ++ page) (drop 24 others)
                    (subst (IsPaged get_page) (sym whole) paged)
                    (omega (
                      arith,
                      length-drop 24 others,
                      length-take 24 others,
                      long_page tx others long,
                      h,
                    ))
                ∙ ap ok whole)
      ]

-- If the API answers for a start the next 25 transactions of a block, or those that are left, then
-- _fetch_block_txs returns all of them in order, with fuel for one round more than there are full pages.
pub fetch_block_txs-all :
    {Tx : Type 0} (get_page : ℕ → Result (List Tx)) (txs : List Tx) (fuel : ℕ)
    → IsPaged get_page txs
    → length txs < fuel * 25
    → fetch_block_txs get_page fuel ≡ ok txs
unfolding fetch_block_txs
fetch_block_txs-all get_page txs fuel paged enough =
    fetch_from-all get_page fuel [] txs paged enough
