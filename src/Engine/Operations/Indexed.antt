-- ===== src/Engine/Operations/Indexed.antt =====
-- OP_PICK and OP_ROLL, whose depth argument becomes an index of a Python list. Python counts a
-- negative index from the other end, so that depths out of range can hit an element too.
use bitcoin_script.Prelude.{
  ℕ, zero, suc, ◌+◌, ◌-◌, ◌<◌, ◌≡◌, ap, ◌∙◌, some, List, [], ◌∷◌, ◌++◌, Bytes, length, get_elem?,
  take, drop, arith,
}
use bitcoin_script.Prelude.Int.{ℤ, pos, negsuc, neg, ◌+ℤ◌, ◌-ℤ◌}
use bitcoin_script.Engine.Stack.{
  ok, ScriptStack, continue, push, pop, peek, pop_index, at_index, remove_index, remove_at,
}
use bitcoin_script.Engine.Number.{element_to_int}
use bitcoin_script.Engine.Operations.StackOps.{op_pick, op_roll}

get_elem?-lt : (xs : List Bytes) (i : ℕ) {x : Bytes} → get_elem? xs i ≡ some x → i < length xs
get_elem?-lt [] i h = cc
get_elem?-lt (y ∷ xs) zero h = omega arith
get_elem?-lt (y ∷ xs) (suc i) h = omega (arith, get_elem?-lt xs i h)

remove_at_lem :
    (xs : List Bytes) (i : ℕ) {x : Bytes}
    → get_elem? xs i ≡ some x
    → remove_at xs i ≡ some (x, take i xs ++ drop (suc i) xs)
unfolding remove_at
remove_at_lem [] i h = cc
remove_at_lem (y ∷ xs) zero h = ground arith
remove_at_lem (y ∷ xs) (suc i) h = rw (remove_at_lem xs i h)

abbrev pub on_top : Bytes → List Bytes → List Bytes → ScriptStack
on_top e below alt = record { main = e ∷ below; alt = alt }

peek_at : (s : ScriptStack) (i : ℤ) (x : Bytes) → at_index s.main i ≡ some x → peek i s ≡ (ok x, s)
unfolding peek
peek_at s i x h = rw h

pop_index_at :
    (s : ScriptStack) (i : ℤ) (x : Bytes) (rest : List Bytes)
    → remove_index s.main i ≡ some (x, rest)
    → pop_index i s ≡ (ok x, record s { main = rest })
unfolding pop_index
pop_index_at s i x rest h = rw h

remove_in_range :
    (xs : List Bytes) (k : ℕ) (x : Bytes)
    → get_elem? xs k ≡ some x
    → remove_index xs (pos (length xs - 1 - k)) ≡ some (x, take k xs ++ drop (suc k) xs)
unfolding remove_index
remove_in_range xs k x h =
    let inside : k < length xs = get_elem?-lt xs k h in
    let back : length xs - 1 - (length xs - 1 - k) ≡ k = omega arith in
    rw (back, remove_at_lem xs k h) (ground arith)

-- The indices that the handlers compute.
pick_index : (k : ℕ) → neg (pos k +ℤ pos 1) ≡ negsuc k
unfolding neg ◌+ℤ◌
pick_index k = ground arith

pick_index_negative : (k : ℕ) → neg (negsuc k +ℤ pos 1) ≡ pos k
unfolding neg ◌+ℤ◌
pick_index_negative k = ground arith

roll_index : (n k : ℕ) → k < n → pos n -ℤ pos 1 -ℤ pos k ≡ pos (n - 1 - k)
unfolding ◌-ℤ◌
roll_index n k h = ground arith

roll_index_wrapped : (n j : ℕ) → pos n -ℤ pos 1 -ℤ pos (n + j) ≡ negsuc j
unfolding ◌-ℤ◌
roll_index_wrapped n j = ground arith

module _ (e x : Bytes) (below alt : List Bytes) where
  picked :
      (j : ℤ)
      → neg (element_to_int e +ℤ pos 1) ≡ j
      → at_index below j ≡ some x
      → op_pick (on_top e below alt) ≡ (ok tt, on_top x below alt)
  unfolding op_pick pop push
  picked j index found =
      ap (λ (t : ℤ). continue push (peek t (record { main = below; alt = alt }))) index
      ∙ ap (continue push) (peek_at (record { main = below; alt = alt }) j x found)

  rolled :
      (j : ℤ) (rest : List Bytes)
      → pos (length below) -ℤ pos 1 -ℤ element_to_int e ≡ j
      → remove_index below j ≡ some (x, rest)
      → op_roll (on_top e below alt) ≡ (ok tt, on_top x rest alt)
  unfolding op_roll pop push
  rolled j rest index found =
      ap (λ (t : ℤ). continue push (pop_index t (record { main = below; alt = alt }))) index
      ∙ ap (continue push) (pop_index_at (record { main = below; alt = alt }) j x rest found)

module _ (e x : Bytes) (below alt : List Bytes) (k : ℕ) (found : get_elem? below k ≡ some x) where
  -- OP_PICK with a depth in range copies the element at that depth.
  pub op_pick_copies :
      element_to_int e ≡ pos k → op_pick (on_top e below alt) ≡ (ok tt, on_top x below alt)
  op_pick_copies depth =
      picked e x below alt (negsuc k) (ap (λ (t : ℤ). neg (t +ℤ pos 1)) depth ∙ pick_index k)
        (unfold at_index in found)

  -- OP_ROLL with a depth in range moves the element at that depth to the top.
  pub op_roll_moves :
      element_to_int e ≡ pos k
      → op_roll (on_top e below alt) ≡ (ok tt, on_top x (take k below ++ drop (suc k) below) alt)
  op_roll_moves depth =
      rolled e x below alt (pos (length below - 1 - k)) (take k below ++ drop (suc k) below)
        (ap (λ (t : ℤ). pos (length below) -ℤ pos 1 -ℤ t) depth
          ∙ roll_index (length below) k (get_elem?-lt below k found))
        (remove_in_range below k x found)

  -- OP_ROLL with a depth that exceeds the last valid depth by `k` + 1, where `k` is a valid depth,
  -- moves the element at depth `k` to the top.
  pub op_roll_wraps :
      element_to_int e ≡ pos (length below + k)
      → op_roll (on_top e below alt) ≡ (ok tt, on_top x (take k below ++ drop (suc k) below) alt)
  op_roll_wraps depth =
      rolled e x below alt (negsuc k) (take k below ++ drop (suc k) below)
        (ap (λ (t : ℤ). pos (length below) -ℤ pos 1 -ℤ t) depth
          ∙ roll_index_wrapped (length below) k)
        (unfold remove_index in remove_at_lem below k found)

-- OP_PICK with the negative depth -(k + 1), where the stack has more than `k` elements, copies the
-- element that stands `k` places above the bottom of the stack.
pub op_pick_negative :
    (e x : Bytes) (below alt : List Bytes) (k : ℕ)
    → k < length below
    → get_elem? below (length below - 1 - k) ≡ some x
    → element_to_int e ≡ negsuc k
    → op_pick (on_top e below alt) ≡ (ok tt, on_top x below alt)
op_pick_negative e x below alt k inside found depth =
    picked e x below alt (pos k) (ap (λ (t : ℤ). neg (t +ℤ pos 1)) depth ∙ pick_index_negative k)
      (unfold at_index in ground arith)
