-- ===== src/Blockchain/Chain/Verified.antt =====
-- What verify_chain leaves behind, and what it says of the blocks that it counts.
use bitcoin_script.Prelude.{
  ℕ, suc, ◌+◌, ◌≡◌, ◌⊎◌, inl, inr, refl, sym, ap, ◌∙◌, true, false, Option, none, some, List, [],
  ◌∷◌, ◌++◌, take, Bool-cases, arith,
}
use mathlib.Core.Path.{subst}
use bitcoin_script.Prelude.Int.{ℤ, pos}
use bitcoin_script.Errors.{Error, Result, ok, err, err≢ok, both_ok, ok-inj}
use bitcoin_script.Blockchain.Flags.{flags_for_block}
use bitcoin_script.Blockchain.BlockFile.{Yields}
use bitcoin_script.Blockchain.Transaction.{Block}
use bitcoin_script.Blockchain.Sighash.{Signatures}
use bitcoin_script.Blockchain.Utxo.{Table, IsTable, checkpoint_height}
use bitcoin_script.Blockchain.Tasks.{Judge}
use bitcoin_script.Blockchain.VerifyBlock.{BlockResult, verify_block_inner}
use bitcoin_script.Blockchain.VerifyBlock.View.{View, after_txs}
use bitcoin_script.Blockchain.VerifyBlock.Refines.{verify_block_inner-after_txs}
use bitcoin_script.Blockchain.VerifyBlock.Accepts.{AcceptsTxs, verify_block_inner-AcceptsTxs}
use bitcoin_script.Blockchain.Chain.{
  Totals, ChainResult, add_block, behind_end, effective_start, chain_result, verify_blocks,
  verify_chain,
}

abbrev pub after_blocks : View → List (ℕ × Block) → View
after_blocks view [] = view
after_blocks view ((height, block) ∷ blocks) = after_blocks (after_txs view 0 block.vtx) blocks

-- The height of the last block, if there is one.
abbrev pub last_height : ℤ → List (ℕ × Block) → ℤ
last_height checkpoint [] = checkpoint
last_height checkpoint ((height, block) ∷ blocks) = last_height (pos height) blocks

-- Each block by its own flags, on the UTXO set that those before it make.
abbrev pub AcceptsBlocks :
    {Msg : Type 0} → Signatures → Judge Msg → View → List (ℕ × Block) → Type 0
AcceptsBlocks lib judge view [] = Unit {0}
AcceptsBlocks lib judge view ((height, block) ∷ blocks) =
    AcceptsTxs lib judge (flags_for_block height block.n_time) view 0 block.vtx
    × AcceptsBlocks lib judge (after_txs view 0 block.vtx) blocks

append_nil {ℓ} : {A : Type ℓ} (xs ys : List A) → xs ++ ys ≡ [] → ys ≡ []
append_nil [] ys h = h
append_nil (x ∷ xs) ys h = absurd (cc h)

-- After a block the loop goes on where there was no error, and stops where there was one.
stop_or_go :
    {E X : Type 0} (errors : List E) (rest : Result X) (stop out : X)
    → elim errors [ [] ↦ rest | e ∷ es ↦ ok stop ] ≡ ok out
    → ((errors ≡ []) × (rest ≡ ok out)) ⊎ (stop ≡ out)
stop_or_go [] rest stop out h = inl (refl, h)
stop_or_go (e ∷ es) rest stop out h = inr (ok-inj h)

module _ {Db Msg : Type 0} (t : Table Db) (laws : IsTable t) (lib : Signatures)
    (judge : Judge Msg) where
  -- A prefix of the blocks, of a length, that is counted, applied and judged.
  record Counted (view : View) (checkpoint : ℤ) (blocks : List (ℕ × Block)) (before : ℕ)
      (totals : Totals Msg) (db : Db) : Type 0 where
    number : ℕ
    count : totals.blocks ≡ before + number
    applied : t.select db ≡ after_blocks view (take number blocks)
    moved : checkpoint_height t db ≡ last_height checkpoint (take number blocks)
    accepted : totals.errors ≡ [] → AcceptsBlocks lib judge view (take number blocks)

  none-Counted :
      (blocks : List (ℕ × Block)) (totals totals' : Totals Msg) (db db' : Db)
      → totals'.blocks ≡ totals.blocks
      → db ≡ db'
      → Counted (t.select db) (checkpoint_height t db) blocks totals.blocks totals' db'
  none-Counted blocks totals totals' db db' n same = record {
    number = 0;
    count = omega (arith, n);
    applied = ap t.select (sym same);
    moved = ap (checkpoint_height t) (sym same);
    accepted = λ _. tt;
  }

  module _ (totals : Totals Msg) (db db' : Db) (height : ℕ) (block : Block)
      (blocks : List (ℕ × Block)) (r : BlockResult Msg)
      (run : verify_block_inner t lib judge db block height ≡ ok (r, db')) where
    -- A block that is verified, before others that are counted.
    one-Counted :
        (totals' : Totals Msg) (db'' : Db)
        → (totals'.errors ≡ [] → r.errors ≡ [])
        → Counted (t.select db') (checkpoint_height t db') blocks (totals.blocks + 1) totals' db''
        → Counted
            (t.select db)
            (checkpoint_height t db)
            ((height, block) ∷ blocks)
            totals.blocks
            totals'
            db''
    one-Counted totals' db'' fine c =
        let (view, checkpoint) =
          verify_block_inner-after_txs t laws lib judge db block height r db' run in
        record {
          number = suc c.number;
          count = omega (arith, c.count);
          applied = c.applied ∙ ap (λ (v : View). after_blocks v (take c.number blocks)) view;
          moved = c.moved ∙ ap (λ (z : ℤ). last_height z (take c.number blocks)) checkpoint;
          accepted = λ n. (
            verify_block_inner-AcceptsTxs t lib judge db block height r db' laws run (fine n),
            subst (λ (v : View). AcceptsBlocks lib judge v (take c.number blocks)) view
                (c.accepted n),
          );
        }

  module _ (last : Option ℕ) (totals : Totals Msg) (db : Db) (height : ℕ) (block : Block)
      (blocks : List (ℕ × Block)) (failure : Option Error) where
    blocks_behind :
        behind_end last height ≡ true
        → verify_blocks t lib judge last totals db ((height, block) ∷ blocks) failure
          ≡ ok (record totals { height = height }, db)
    unfolding verify_blocks
    blocks_behind e = rw (verify_blocks, e) refl

    go_on : BlockResult Msg × Db → Result (Totals Msg × Db)
    go_on (r, db') = elim r.errors [
      | [] ↦ verify_blocks t lib judge last (add_block totals height r) db' blocks failure
      | problem ∷ problems ↦ ok (add_block totals height r, db')
    ]

    blocks_step :
        behind_end last height ≡ false
        → verify_blocks t lib judge last totals db ((height, block) ∷ blocks) failure
          ≡ elim (verify_block_inner t lib judge db block height) [ err e ↦ err e | ok p ↦ go_on p ]
    unfolding verify_blocks go_on
    blocks_step e = rw (verify_blocks, e) refl

    go_on_parts :
        (r : BlockResult Msg) (db' : Db) (out : Totals Msg × Db)
        → go_on (r, db') ≡ ok out
        → ((r.errors ≡ [])
            × (verify_blocks t lib judge last (add_block totals height r) db' blocks failure
                ≡ ok out))
          ⊎ ((add_block totals height r, db') ≡ out)
    unfolding go_on
    go_on_parts r db' out h =
        stop_or_go r.errors
          (verify_blocks t lib judge last (add_block totals height r) db' blocks failure)
          (add_block totals height r, db') out h

  verify_blocks-Counted :
      (last : Option ℕ) (totals totals' : Totals Msg) (db db' : Db) (blocks : List (ℕ × Block))
      (failure : Option Error)
      → verify_blocks t lib judge last totals db blocks failure ≡ ok (totals', db')
      → Counted (t.select db) (checkpoint_height t db) blocks totals.blocks totals' db'
  unfolding verify_blocks
  verify_blocks-Counted last totals totals' db db' [] none h =
      none-Counted [] totals totals' db db'
        (ap (λ (p : Totals Msg × Db). p.0.blocks) (sym (ok-inj h)))
        (ap (λ (p : Totals Msg × Db). p.1) (ok-inj h))
  verify_blocks-Counted last totals totals' db db' [] (some e) h = absurd (err≢ok h)
  verify_blocks-Counted last totals totals' db db' ((height, block) ∷ blocks) failure h =
      elim (Bool-cases (behind_end last height)) [
        | inl e ↦
            let same =
              ok-inj (sym (blocks_behind last totals db height block blocks failure e) ∙ h) in
            none-Counted ((height, block) ∷ blocks) totals totals' db db'
              (ap (λ (p : Totals Msg × Db). p.0.blocks) (sym same))
              (ap (λ (p : Totals Msg × Db). p.1) same)
        | inr e ↦
            let ((r, d), run, rest) =
              both_ok (verify_block_inner t lib judge db block height)
                (go_on last totals db height block blocks failure) (totals', db')
                (sym (blocks_step last totals db height block blocks failure e) ∙ h) in
            elim (go_on_parts last totals db height block blocks failure r d (totals', db') rest) [
              | inl (clean, others) ↦
                  one-Counted totals db d height block blocks r run totals' db' (λ _. clean)
                    (verify_blocks-Counted last (add_block totals height r) totals' d db' blocks
                      failure others)
              | inr same ↦
                  one-Counted totals db d height block blocks r run totals' db'
                    (λ n.
                      append_nil totals.errors r.errors
                        (ap (λ (p : Totals Msg × Db). p.0.errors) same ∙ n))
                    (none-Counted blocks (add_block totals height r) totals' d db'
                      (ap (λ (p : Totals Msg × Db). p.0.blocks) (sym same))
                      (ap (λ (p : Totals Msg × Db). p.1) same))
            ]
      ]

-- The blocks that `_load_chain` yields from the checkpoint or the start on, as many as were verified.
abbrev pub verified_blocks :
    {Db Msg : Type 0}
    → Table Db
    → (ℕ → Option ℕ → Yields (ℕ × Block))
    → Db
    → ℕ
    → Option ℕ
    → ChainResult Msg
    → List (ℕ × Block)
verified_blocks t chain db start last r =
    take r.blocks_verified (chain (effective_start start (checkpoint_height t db)) last).items

module _ {Db Msg : Type 0} (t : Table Db) (lib : Signatures) (judge : Judge Msg)
    (chain : ℕ → Option ℕ → Yields (ℕ × Block)) (db : Db) (start : ℕ) (last : Option ℕ)
    (r : ChainResult Msg) (db' : Db) where
  verify_chain_parts :
      IsTable t
      → verify_chain t lib judge chain db start last ≡ ok (r, db')
      → (t.select db' ≡ after_blocks (t.select db) (verified_blocks t chain db start last r))
        × (checkpoint_height t db'
            ≡ last_height (checkpoint_height t db) (verified_blocks t chain db start last r))
        × (r.errors ≡ []
            → AcceptsBlocks lib judge (t.select db) (verified_blocks t chain db start last r))
  unfolding verify_chain
  verify_chain_parts laws h =
      let first = effective_start start (checkpoint_height t db) in
      let begin : Totals Msg = record { inputs = 0; blocks = 0; errors = []; height = first } in
      let ((totals, d), run, done) =
        both_ok
          (verify_blocks t lib judge last begin db (chain first last).items
            (chain first last).failure)
          (λ p. ok (chain_result first p.0, p.1)) (r, db') h in
      let result = ap (λ (p : ChainResult Msg × Db). p.0) (ok-inj done) in
      let stored = ap (λ (p : ChainResult Msg × Db). p.1) (ok-inj done) in
      let c =
        verify_blocks-Counted t laws lib judge last begin totals db d (chain first last).items
          (chain first last).failure run in
      let number : c.number ≡ r.blocks_verified =
        omega (arith, c.count, ap (λ (s : ChainResult Msg). s.blocks_verified) result) in
      let same = ap (λ (n : ℕ). take n (chain first last).items) number in
      (
        ap t.select (sym stored) ∙ c.applied ∙ ap (after_blocks (t.select db)) same,
        ap (checkpoint_height t) (sym stored)
            ∙ c.moved
            ∙ ap (last_height (checkpoint_height t db)) same,
        λ n.
            subst (AcceptsBlocks lib judge (t.select db)) same
              (c.accepted (ap (λ (s : ChainResult Msg). s.errors) result ∙ n)),
      )

-- Where verify_chain returns, it has applied to the UTXO set the blocks that it counts as verified, in
-- order, from the first that the chain yields, and no others, and the checkpoint is at the height of
-- the last of them, or where it was if there are none. This holds whether the last block has errors or
-- not.
pub verify_chain-after_blocks :
    {Db Msg : Type 0} (t : Table Db) (lib : Signatures) (judge : Judge Msg)
    (chain : ℕ → Option ℕ → Yields (ℕ × Block)) (db : Db) (start : ℕ) (last : Option ℕ)
    (r : ChainResult Msg) (db' : Db)
    → IsTable t
    → verify_chain t lib judge chain db start last ≡ ok (r, db')
    → (t.select db' ≡ after_blocks (t.select db) (verified_blocks t chain db start last r))
      × (checkpoint_height t db'
          ≡ last_height (checkpoint_height t db) (verified_blocks t chain db start last r))
verify_chain-after_blocks t lib judge chain db start last r db' laws h =
    let (applied, moved, _) = verify_chain_parts t lib judge chain db start last r db' laws h in
    (applied, moved)

-- Where verify_chain returns no error, every block that it counts as verified is accepted, by the flags
-- of its height and time, on the UTXO set that the blocks before it make: every input but those of a
-- coinbase names an outpoint that is there, and the task that is made of it is judged without an error,
-- by the process itself or, where there is a process pool, by a worker.
pub verify_chain-AcceptsBlocks :
    {Db Msg : Type 0} (t : Table Db) (lib : Signatures) (judge : Judge Msg)
    (chain : ℕ → Option ℕ → Yields (ℕ × Block)) (db : Db) (start : ℕ) (last : Option ℕ)
    (r : ChainResult Msg) (db' : Db)
    → IsTable t
    → verify_chain t lib judge chain db start last ≡ ok (r, db')
    → r.errors ≡ []
    → AcceptsBlocks lib judge (t.select db) (verified_blocks t chain db start last r)
verify_chain-AcceptsBlocks t lib judge chain db start last r db' laws h n =
    let (_, _, accepted) = verify_chain_parts t lib judge chain db start last r db' laws h in
    accepted n
