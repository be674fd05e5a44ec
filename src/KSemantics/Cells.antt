-- ===== src/KSemantics/Cells.antt =====
-- The walks over a pattern, and what they find.
use bitcoin_script.Prelude.{
  ℕ, zero, suc, ◌+◌, ◌≤◌, ◌≡◌, refl, sym, ap, ◌∙◌, Option, none, some, List, [], append_assoc,
  append-nil, Bytes, bytes_eq, if◌then◌else◌, arith, Bool-cases, inl, inr,
}
use bitcoin_script.Prelude.Text.{Text, codes}
use bitcoin_script.Errors.{Result, ok, err}
use bitcoin_script.KSemantics.{
  Pattern, app, dv, left_assoc, other, Patterns, no_patterns, with_pattern, size, sizes, put_all,
  find_from, find_cell, Node, nested, item, neither, node_of, without_injection, token_of,
  both_items, collect_from, list_items,
}

abbrev pub or_else : {A : Type 0} → Option A → Option A → Option A
or_else none o = o
or_else (some a) o = some a

-- The first cell of a symbol, in the order of the text, not below a LeftAssoc.
unfoldable mutual
  pub first_cell : Text → Pattern → Option Patterns
  first_cell symbol (app s args) = if bytes_eq s symbol then some args else first_of symbol args
  first_cell symbol (dv value) = none
  first_cell symbol (left_assoc args) = none
  first_cell symbol other = none

  pub first_of : Text → Patterns → Option Patterns
  first_of symbol no_patterns = none
  first_of symbol (with_pattern p ps) = or_else (first_cell symbol p) (first_of symbol ps)

sizes-put_all : (a b : Patterns) → sizes (put_all a b) ≡ sizes a + sizes b
unfolding sizes
sizes-put_all no_patterns b = omega arith
sizes-put_all (with_pattern p ps) b = omega (arith, sizes-put_all ps b)

first_of-put_all :
    (symbol : Text) (a b : Patterns)
    → first_of symbol (put_all a b) ≡ or_else (first_of symbol a) (first_of symbol b)
unfolding first_of
first_of-put_all symbol no_patterns b = refl
first_of-put_all symbol (with_pattern p ps) b =
    ap (or_else (first_cell symbol p)) (first_of-put_all symbol ps b)
    ∙ or_assoc (first_cell symbol p)
  where
    or_assoc :
        (o : Option Patterns)
        → or_else o (or_else (first_of symbol ps) (first_of symbol b))
          ≡ or_else (or_else o (first_of symbol ps)) (first_of symbol b)
    or_assoc none = refl
    or_assoc (some x) = refl

size_pos : (p : Pattern) → 1 ≤ size p
unfolding size
size_pos (app symbol args) = omega arith
size_pos (dv value) = omega arith
size_pos (left_assoc args) = omega arith
size_pos other = omega arith

find_from-first_of :
    (fuel : ℕ) (symbol : Text) (stack : Patterns)
    → sizes stack ≤ fuel
    → find_from fuel symbol stack ≡ first_of symbol stack
unfolding find_from sizes first_of
find_from-first_of zero symbol no_patterns h = refl
find_from-first_of zero symbol (with_pattern p rest) h = absurd (omega (arith, h, size_pos p))
find_from-first_of (suc fuel) symbol no_patterns h = refl
find_from-first_of (suc fuel) symbol (with_pattern (app s args) rest) h =
    elim (Bool-cases (bytes_eq s symbol)) [
      | inl e ↦ rw (e) refl
      | inr e ↦ rw (e) (
          find_from-first_of fuel symbol (put_all args rest)
            (omega (arith, h, sizes-put_all args rest))
          ∙ first_of-put_all symbol args rest)
    ]
find_from-first_of (suc fuel) symbol (with_pattern (dv value) rest) h =
    find_from-first_of fuel symbol rest (omega (arith, h))
find_from-first_of (suc fuel) symbol (with_pattern (left_assoc args) rest) h =
    find_from-first_of fuel symbol rest (omega (arith, h))
find_from-first_of (suc fuel) symbol (with_pattern other rest) h =
    find_from-first_of fuel symbol rest (omega (arith, h))

-- The walk for a cell ends, and finds the first cell of its symbol in the order of the text, not below
-- a LeftAssoc, exactly where there is one.
pub find_cell-first_cell :
    (pattern : Pattern) (symbol : Text) → find_cell pattern symbol ≡ first_cell symbol pattern
unfolding find_cell first_of sizes
find_cell-first_cell pattern symbol =
    find_from-first_of (size pattern) symbol (with_pattern pattern no_patterns) (omega arith)
    ∙ or_none (first_cell symbol pattern)
  where
    or_none : (o : Option Patterns) → or_else o none ≡ o
    or_none none = refl
    or_none (some x) = refl

-- What a node of a symbol is, of whose arguments these are the items.
abbrev pub items_of_app : Text → Patterns → Result (List Bytes) → Result (List Bytes)
items_of_app symbol no_patterns all = ok []
items_of_app symbol (with_pattern p ps) all =
    if bytes_eq symbol (codes "Lbl'Stop'List")
    then ok []
    else (if bytes_eq symbol (codes "LblListItem")
        then token_of (without_injection p)
        else (if bytes_eq symbol (codes "Lbl'Unds'List'Unds'") then all else ok []))

-- The items of a list, by recursion on the pattern.
unfoldable mutual
  pub items : Pattern → Result (List Bytes)
  items (app symbol args) = items_of_app symbol args (all_items args)
  items (dv value) = ok []
  items (left_assoc args) = all_items args
  items other = ok []

  pub all_items : Patterns → Result (List Bytes)
  all_items no_patterns = ok []
  all_items (with_pattern p ps) = both_items (items p) (all_items ps)

both_items_assoc :
    (a b c : Result (List Bytes)) → both_items a (both_items b c) ≡ both_items (both_items a b) c
both_items_assoc (err e) b c = refl
both_items_assoc (ok a) (err e) c = refl
both_items_assoc (ok a) (ok b) (err e) = refl
both_items_assoc (ok a) (ok b) (ok c) = ap ok (sym (append_assoc a b c))

no_items : (r : Result (List Bytes)) → r ≡ both_items (ok []) r
no_items (err e) = refl
no_items (ok a) = refl

all_items-put_all :
    (a b : Patterns) → all_items (put_all a b) ≡ both_items (all_items a) (all_items b)
unfolding all_items
all_items-put_all no_patterns b = no_items (all_items b)
all_items-put_all (with_pattern p ps) b =
    ap (both_items (items p)) (all_items-put_all ps b)
    ∙ both_items_assoc (items p) (all_items ps) (all_items b)

-- What the node is says what its items are, and how many patterns it puts on the worklist.
abbrev Explains : Node → Pattern → Type 0
Explains (nested args) p = (items p ≡ all_items args) × (size p ≡ suc (sizes args))
Explains (item inner) p = items p ≡ token_of (without_injection inner)
Explains neither p = items p ≡ ok []

node_of-Explains : (p : Pattern) → Explains (node_of p) p
unfolding node_of size items
node_of-Explains (app symbol no_patterns) =
    elim (Bool-cases (bytes_eq symbol (codes "Lbl'Unds'List'Unds'"))) [
      | inl e ↦ rw (e) (refl, refl)
      | inr e ↦ rw (e) refl
    ]
node_of-Explains (app symbol (with_pattern p ps)) =
    elim (Bool-cases (bytes_eq symbol (codes "Lbl'Stop'List"))) [
      | inl e ↦ rw (e) (rw (items, e) refl)
      | inr e ↦ elim (Bool-cases (bytes_eq symbol (codes "LblListItem"))) [
        | inl e2 ↦ rw (e, e2) (rw (items, e, e2) refl)
        | inr e2 ↦ elim (Bool-cases (bytes_eq symbol (codes "Lbl'Unds'List'Unds'"))) [
          | inl e3 ↦ rw (e, e2, e3) (rw (items, e, e2, e3) refl, refl)
          | inr e3 ↦ rw (e, e2, e3) (rw (items, e, e2, e3) refl)
        ]
      ]
    ]
node_of-Explains (dv value) = refl
node_of-Explains (left_assoc args) = (refl, refl)
node_of-Explains other = refl

collect_from-all_items :
    (fuel : ℕ) (worklist : Patterns)
    → sizes worklist ≤ fuel
    → collect_from fuel worklist ≡ all_items worklist
unfolding collect_from sizes all_items
collect_from-all_items zero no_patterns h = refl
collect_from-all_items zero (with_pattern p rest) h = absurd (omega (arith, h, size_pos p))
collect_from-all_items (suc fuel) no_patterns h = refl
collect_from-all_items (suc fuel) (with_pattern p rest) h =
    visited p rest (node_of p) refl (node_of-Explains p) h (collect_from-all_items fuel)
  where
    before_rest :
        (p : Pattern) (rest : Patterns) {r : Result (List Bytes)}
        → items p ≡ r
        → both_items r (all_items rest) ≡ both_items (items p) (all_items rest)
    before_rest p rest same = ap (λ found. both_items found (all_items rest)) (sym same)

    visited :
        (p : Pattern) (rest : Patterns) (node : Node)
        → node_of p ≡ node
        → Explains node p
        → size p + sizes rest ≤ suc fuel
        → ((worklist : Patterns)
            → sizes worklist ≤ fuel
            → collect_from fuel worklist ≡ all_items worklist)
        → collect_from (suc fuel) (with_pattern p rest) ≡ both_items (items p) (all_items rest)
    visited p rest (nested args) e (same, larger) h others =
        rw (collect_from, e)
          (others (put_all args rest) (omega (arith, h, larger, sizes-put_all args rest))
            ∙ all_items-put_all args rest
            ∙ before_rest p rest same)
    visited p rest (item inner) e same h others =
        rw (collect_from, e)
          (ap (both_items (token_of (without_injection inner)))
              (others rest (omega (arith, h, size_pos p)))
            ∙ before_rest p rest same)
    visited p rest neither e same h others =
        rw (collect_from, e)
          (others rest (omega (arith, h, size_pos p))
            ∙ no_items (all_items rest)
            ∙ before_rest p rest same)

-- The walk over a list ends, and collects the items in the order of the text, that is, what the
-- recursion on the pattern collects: the items of the nodes "Lbl'Unds'List'Unds'" and LeftAssoc, and the
-- first error in that order.
pub list_items-items : (pattern : Pattern) → list_items pattern ≡ items pattern
unfolding list_items sizes all_items
list_items-items pattern =
    collect_from-all_items (size pattern) (with_pattern pattern no_patterns) (omega arith)
    ∙ and_nothing (items pattern)
  where
    and_nothing : (r : Result (List Bytes)) → both_items r (ok []) ≡ r
    and_nothing (err e) = refl
    and_nothing (ok found) = ap ok (append-nil found)
