-- ===== src/Blockchain/VerifyBlock/Store.antt =====
-- The statements of UTXOSet that a transaction causes, as steps of the view.
use bitcoin_script.Prelude.{
  ℕ, ◌+◌, ◌≡◌, refl, sym, ap, ◌∙◌, Bool, true, false, Option, none, some, List, [], ◌∷◌, Bytes,
  bytes_eq, bytes_eq→eq, if◌then◌else◌, Bool-cases, Option-cases, inl, inr, arith,
}
use bitcoin_script.Prelude.Int.{ℤ}
use bitcoin_script.Errors.{Error, ok, err, both_ok, ok-inj}
use bitcoin_script.Blockchain.Transaction.{TxIn, TxOut}
use bitcoin_script.Blockchain.Utxo.{Row, Table, IsTable, same_outpoint, add, spend}
use bitcoin_script.Blockchain.VerifyBlock.{bip30, spend_inputs, add_outputs}
use bitcoin_script.Blockchain.VerifyBlock.View.{
  uses, output_at, or_old, spent, outputs_or, put_then, or_none,
}

same_bytes : (a x : Bytes) (b y : ℕ) → same_outpoint a b x y ≡ true → a ≡ x
same_bytes a x b y h = elim (Bool-cases (bytes_eq a x)) [
  | inl e ↦ bytes_eq→eq a x e
  | inr e ↦ absurd (ground (arith, h, e))
]

same_number : (a x : Bytes) (b y : ℕ) → same_outpoint a b x y ≡ true → b ≡ y
same_number a x b y h = elim (Bool-cases (bytes_eq a x)) [
  | inl e ↦ ground (arith, h, e)
  | inr e ↦ absurd (ground (arith, h, e))
]

module _ {Db : Type 0} (t : Table Db) (laws : IsTable t) where
  missing :
      (db : Db) (a : Bytes) (b : ℕ) (txid : Bytes) (vout : ℕ) (same : Bool)
      → t.select db a b ≡ none
      → same_outpoint a b txid vout ≡ same
      → t.select db txid vout ≡ (if same then none else t.select db txid vout)
  missing db a b txid vout false n h = refl
  missing db a b txid vout true n h =
      ap (λ (c : Bytes). t.select db c vout) (sym (same_bytes a txid b vout h))
      ∙ ap (t.select db a) (sym (same_number a txid b vout h))
      ∙ n

  -- `spend` leaves nothing at its outpoint, whether something was there or not.
  pub select-spend :
      (db : Db) (a : Bytes) (b : ℕ) (txid : Bytes) (vout : ℕ)
      → t.select ((spend t db a b).1) txid vout
        ≡ (if same_outpoint a b txid vout then none else t.select db txid vout)
  unfolding spend
  select-spend db a b txid vout = elim (Option-cases (t.select db a b)) [
    | inl e ↦ rw (spend, e) (missing db a b txid vout (same_outpoint a b txid vout) e refl)
    | inr (row, e) ↦ rw (spend, e) (laws.select-delete db a b txid vout)
  ]

  inserted :
      (o : Option Db) (db' : Db)
      → elim o [ none ↦ err Error.library_error | some db'' ↦ ok db'' ] ≡ ok db'
      → o ≡ some db'
  inserted none db' h = absurd (cc h)
  inserted (some db'') db' h = ap some (ok-inj h)

  replaced :
      (db db' : Db) (txid : Bytes) (vout : ℕ) (script : Bytes) (amount : ℤ) (overwrite : Bool)
      → add t db txid vout script amount overwrite ≡ ok db'
      → t.replace db txid vout (script, amount) ≡ db'
  unfolding add
  replaced db db' txid vout script amount true h = ok-inj h
  replaced db db' txid vout script amount false h =
      let stored = inserted (t.insert db txid vout (script, amount)) db' h in
      elim (Option-cases (t.select db txid vout)) [
        | inl e ↦ cc (laws.insert_fresh db txid vout (script, amount) e, stored)
        | inr (old, e) ↦ absurd (cc (laws.insert_taken db txid vout (script, amount) old e, stored))
      ]

  -- `add` puts the output at its outpoint, where it does not raise.
  pub select-add :
      (db db' : Db) (a : Bytes) (b : ℕ) (script : Bytes) (amount : ℤ) (overwrite : Bool)
      (txid : Bytes) (vout : ℕ)
      → add t db a b script amount overwrite ≡ ok db'
      → t.select db' txid vout
        ≡ (if same_outpoint a b txid vout then some (script, amount) else t.select db txid vout)
  select-add db db' a b script amount overwrite txid vout h =
      ap (λ (d : Db). t.select d txid vout) (sym (replaced db db' a b script amount overwrite h))
      ∙ laws.select-replace db a b (script, amount) txid vout

  pub select-spend_inputs :
      (db : Db) (vins : List TxIn) (txid : Bytes) (vout : ℕ)
      → t.select (spend_inputs t db vins) txid vout ≡ spent (t.select db) vins txid vout
  unfolding spend_inputs
  select-spend_inputs db [] txid vout = refl
  select-spend_inputs db (vin ∷ vins) txid vout =
      select-spend_inputs ((spend t db vin.prevout_hash vin.prevout_n).1) vins txid vout
      ∙ ap (λ (old : Option Row). if uses vins txid vout then none else old)
          (select-spend db vin.prevout_hash vin.prevout_n txid vout)
      ∙ sym (
          or_none (same_outpoint vin.prevout_hash vin.prevout_n txid vout) (uses vins txid vout)
            (t.select db txid vout))

  pub select-add_outputs :
      (height : ℕ) (db db' : Db) (created : Bytes) (first : ℕ) (outs : List TxOut) (txid : Bytes)
      (vout : ℕ)
      → add_outputs t height db created first outs ≡ ok db'
      → t.select db' txid vout ≡ outputs_or (t.select db) created first outs txid vout
  unfolding add_outputs
  select-add_outputs height db db' created first [] txid vout h =
      ap (λ (d : Db). t.select d txid vout) (sym (ok-inj h)) ∙ no_outputs (bytes_eq created txid)
    where
      no_outputs :
          (same : Bool)
          → t.select db txid vout ≡ or_old (t.select db txid vout) (if same then none else none)
      no_outputs true = refl
      no_outputs false = refl
  select-add_outputs height db db' created first (out ∷ outs) txid vout h =
      let (d, added, rest) =
        both_ok (add t db created first out.script_pubkey out.n_value (bip30 height))
          (λ d. add_outputs t height d created (first + 1) outs) db' h in
      select-add_outputs height d db' created (first + 1) outs txid vout rest
      ∙ ap
          (λ (old : Option Row).
            or_old old (if bytes_eq created txid then output_at (first + 1) outs vout else none))
          (select-add db d created first out.script_pubkey out.n_value (bip30 height) txid vout
            added)
      ∙ put_then (bytes_eq created txid) first vout out outs (t.select db txid vout)
