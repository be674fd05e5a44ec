-- ===== src/Benchmark/Api/Targets.antt =====
-- `extract_dataset_api` of benchmark/api_extractor.py: the blocks that it fetches, and the loop over
-- them. What the API answers for a height, or that asking raises, is a parameter. A dict is the list of
-- its items, and a set the list of its members.
use bitcoin_script.Prelude.{
  ℕ, zero, suc, ◌+◌, ◌≡◌, refl, ap, ◌∙◌, Bool, true, false, Option, none, some, List, [], ◌∷◌, ◌++◌,
  map, if◌then◌else◌, ◌==◌, ◌||◌, ltb, arith,
}
use bitcoin_script.Prelude.Int.{ℤ, pos, negsuc, leb_ℤ}
use bitcoin_script.Prelude.Text.{Text, codes}
use bitcoin_script.Errors.{Result, ok}
use bitcoin_script.Blockchain.Sighash.{Signatures, sorted_set}
use bitcoin_script.Benchmark.{BenchmarkInput}
use bitcoin_script.Benchmark.Extraction.{Targets, is_in, category_of}
use bitcoin_script.Benchmark.Api.{ApiTx, Wire, join_inputs, extract_inputs_from_api_block}

unfoldable pub target_at : ℕ → List (ℕ × Text) → Option Text
target_at height [] = none
target_at height ((h, category) ∷ targets) =
    let later = target_at height targets in if h == height then some category else later

-- `if h not in target_blocks: target_blocks[h] = ...`
abbrev pub put_missing : ℕ → Text → Option Text → List (ℕ × Text) → List (ℕ × Text)
put_missing height category none targets = (height, category) ∷ targets
put_missing height category (some old) targets = targets

unfoldable pub put_heights : Text → List ℕ → List (ℕ × Text) → List (ℕ × Text)
put_heights category [] targets = targets
put_heights category (h ∷ heights) targets =
    put_heights category heights (put_missing h category (target_at h targets) targets)

-- `range(continuous_end + 1)`, where the end is not negative.
unfoldable pub below : ℕ → List ℕ
below zero = []
below (suc n) = below n ++ n ∷ []

abbrev pub continuous_heights : ℤ → List ℕ
continuous_heights (pos n) = below (n + 1)
continuous_heights (negsuc n) = []

unfoldable pub target_blocks : Targets → List (ℕ × Text)
target_blocks targets = put_heights (codes "stress") targets.stress_heights (
    put_heights (codes "representative") targets.representative_heights
      (put_heights (codes "continuous") (continuous_heights targets.continuous_end) []))

-- The timestamp and the transactions of a block, where nothing raises.
abbrev pub Answer : Type 0
Answer = Option (ℕ × List ApiTx)

module _ (lib : Signatures) (wire : Wire) (answer : ℕ → Answer) where
  abbrev pub api_block : ℕ → Answer → Option Text → Result (List BenchmarkInput)
  api_block height none category = ok []
  api_block height (some block) none = ok []
  api_block height (some (timestamp, txs)) (some category) =
      extract_inputs_from_api_block lib wire height timestamp txs category

  unfoldable pub fetch_targets : List (ℕ × Text) → List ℕ → Result (List BenchmarkInput)
  fetch_targets targets [] = ok []
  fetch_targets targets (height ∷ heights) =
      join_inputs (api_block height (answer height) (target_at height targets))
        (fetch_targets targets heights)

  -- The inputs of the dataset.
  unfoldable pub extract_dataset_api : Targets → Result (List BenchmarkInput)
  extract_dataset_api targets =
      let blocks = target_blocks targets in
      fetch_targets blocks (sorted_set (map (λ (b : ℕ × Text). b.0) blocks))

abbrev or_put : Option Text → Bool → Text → Option Text
or_put (some old) listed category = some old
or_put none listed category = if listed then some category else none

or_put_nothing : (x : Option Text) (category : Text) → x ≡ or_put x false category
or_put_nothing none category = refl
or_put_nothing (some old) category = refl

or_put_twice :
    (x : Option Text) (first second : Bool) (category : Text)
    → or_put (or_put x first category) second category
      ≡ or_put x (if first then true else second) category
or_put_twice none true second category = refl
or_put_twice none false second category = refl
or_put_twice (some old) first second category = refl

module _ (height h : ℕ) (category : Text) (targets : List (ℕ × Text)) where
  target_at_same :
      (found : Option Text)
      → (h == height) ≡ true
      → target_at h targets ≡ found
      → target_at height targets ≡ found
  target_at_same found same e =
      let here : height ≡ h = ground (arith, same) in ap (λ k. target_at k targets) here ∙ e

  put_missing_by :
      (found : Option Text) (same : Bool)
      → target_at h targets ≡ found
      → (h == height) ≡ same
      → target_at height (put_missing h category found targets)
        ≡ or_put (target_at height targets) same category
  unfolding target_at
  put_missing_by (some old) true e s = rw (target_at_same (some old) s e) refl
  put_missing_by none true e s = rw (target_at, s, target_at_same none s e) refl
  put_missing_by (some old) false e s = or_put_nothing (target_at height targets) category
  put_missing_by none false e s =
      rw (target_at, s) (or_put_nothing (target_at height targets) category)

target_at-put_heights :
    (height : ℕ) (category : Text) (heights : List ℕ) (targets : List (ℕ × Text))
    → target_at height (put_heights category heights targets)
      ≡ or_put (target_at height targets) (is_in height heights) category
unfolding put_heights is_in
target_at-put_heights height category [] targets =
    or_put_nothing (target_at height targets) category
target_at-put_heights height category (h ∷ heights) targets =
    let more = put_missing h category (target_at h targets) targets in
    target_at-put_heights height category heights more
    ∙ ap (λ x. or_put x (is_in height heights) category)
        (put_missing_by height h category targets (target_at h targets) (h == height) refl refl)
    ∙ or_put_twice (target_at height targets) (h == height) (is_in height heights) category

is_in-append :
    (height h : ℕ) (heights : List ℕ)
    → is_in height (heights ++ h ∷ []) ≡ (is_in height heights || (h == height))
unfolding is_in
is_in-append height h [] = by_same (h == height)
  where
    by_same : (same : Bool) → (if same then true else false) ≡ (false || same)
    by_same true = refl
    by_same false = refl
is_in-append height h (k ∷ heights) =
    ap (λ x. if k == height then true else x) (is_in-append height h heights)
    ∙ by_first (k == height) (is_in height heights)
  where
    by_first :
        (first later : Bool)
        → (if first then true else (later || (h == height)))
          ≡ ((if first then true else later) || (h == height))
    by_first true later = refl
    by_first false later = refl

is_in-below : (height n : ℕ) → is_in height (below n) ≡ ltb height n
unfolding below is_in
is_in-below height zero = ground arith
is_in-below height (suc n) =
    is_in-append height n (below n)
    ∙ ap (λ x. x || (n == height)) (is_in-below height n)
    ∙ ground arith

is_in-continuous_heights :
    (height : ℕ) (end : ℤ) → is_in height (continuous_heights end) ≡ leb_ℤ (pos height) end
unfolding is_in
is_in-continuous_heights height (pos n) = is_in-below height (n + 1) ∙ ground arith
is_in-continuous_heights height (negsuc n) = ground arith

-- The extraction over the API fetches a height exactly where the extraction from the files puts it into
-- a category, and into the same one.
pub target_blocks-category_of :
    (targets : Targets) (height : ℕ)
    → target_at height (target_blocks targets) ≡ category_of targets height
unfolding target_blocks category_of target_at
target_blocks-category_of targets height =
    let first = put_heights (codes "continuous") (continuous_heights targets.continuous_end) [] in
    let second = put_heights (codes "representative") targets.representative_heights first in
    target_at-put_heights height (codes "stress") targets.stress_heights second
    ∙ ap (λ x. or_put x (is_in height targets.stress_heights) (codes "stress"))
        (target_at-put_heights height (codes "representative") targets.representative_heights first
          ∙ ap
              (λ x. or_put x (is_in height targets.representative_heights) (codes "representative"))
              (target_at-put_heights height (codes "continuous")
                  (continuous_heights targets.continuous_end) []
                ∙ ap (λ b. or_put none b (codes "continuous"))
                    (is_in-continuous_heights height targets.continuous_end)))
    ∙ by_lists (leb_ℤ (pos height) targets.continuous_end)
        (is_in height targets.representative_heights) (is_in height targets.stress_heights)
  where
    by_lists :
        (a b c : Bool)
        → or_put
            (or_put (or_put none a (codes "continuous")) b (codes "representative"))
            c
            (codes "stress")
          ≡ (if a
              then some (codes "continuous")
              else (if b
                  then some (codes "representative")
                  else (if c then some (codes "stress") else none)))
    by_lists true b c = refl
    by_lists false true c = refl
    by_lists false false true = refl
    by_lists false false false = refl
