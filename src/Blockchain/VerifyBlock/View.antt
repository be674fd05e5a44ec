-- ===== src/Blockchain/VerifyBlock/View.antt =====
-- What the UTXO set is after a transaction and after a block, outpoint by outpoint.
use bitcoin_script.Prelude.{
  ℕ, ◌+◌, ◌<◌, ◌≡◌, refl, ap, Bool, true, false, ◌&&◌, ◌||◌, Option, none, some, List, [], ◌∷◌,
  Bytes, bytes_eq, if◌then◌else◌, ◌==◌, arith,
}
use bitcoin_script.Blockchain.Transaction.{TxIn, TxOut, Transaction}
use bitcoin_script.Blockchain.Utxo.{Row, same_outpoint}

-- A UTXO set is what it holds at each outpoint.
abbrev pub View : Type 0
View = Bytes → ℕ → Option Row

abbrev pub uses : List TxIn → Bytes → ℕ → Bool
uses [] txid vout = false
uses (vin ∷ vins) txid vout =
    same_outpoint vin.prevout_hash vin.prevout_n txid vout || uses vins txid vout

abbrev pub output_at : ℕ → List TxOut → ℕ → Option Row
output_at first [] vout = none
output_at first (out ∷ outs) vout =
    if first == vout then some (out.script_pubkey, out.n_value) else output_at (first + 1) outs vout

-- Without the outpoints that the inputs name.
abbrev pub spent : View → List TxIn → View
spent view vins txid vout = if uses vins txid vout then none else view txid vout

abbrev pub or_old : Option Row → Option Row → Option Row
or_old old none = old
or_old old (some row) = some row

-- With the outputs of the transaction `created`, from number `first` on.
abbrev pub outputs_or : View → Bytes → ℕ → List TxOut → View
outputs_or view created first outs txid vout =
    or_old (view txid vout) (if bytes_eq created txid then output_at first outs vout else none)

-- The coinbase spends nothing.
abbrev pub inputs_spent : Bool → View → List TxIn → View
inputs_spent true view vins = view
inputs_spent false view vins = spent view vins

abbrev pub after_tx : View → ℕ → Transaction → View
after_tx view tx_idx tx = outputs_or (inputs_spent (tx_idx == 0) view tx.vin) tx.txid 0 tx.vout

abbrev pub after_txs : View → ℕ → List Transaction → View
after_txs view tx_idx [] = view
after_txs view tx_idx (tx ∷ txs) = after_txs (after_tx view tx_idx tx) (tx_idx + 1) txs

output_at-early :
    (first vout : ℕ) (outs : List TxOut) → vout < first → output_at first outs vout ≡ none
output_at-early first vout [] h = refl
output_at-early first vout (out ∷ outs) h =
    let rest = output_at-early (first + 1) vout outs (omega (arith, h)) in ground (arith, h, rest)

-- To put an output and then those behind it is to put them all.
put_one :
    (here : Bool) (row : Row) (old rest : Option Row)
    → (here ≡ true → rest ≡ none)
    → or_old (if here then some row else old) rest ≡ or_old old (if here then some row else rest)
put_one true row old rest h = ap (or_old (some row)) (h refl)
put_one false row old rest h = refl

pub put_then :
    (same : Bool) (first vout : ℕ) (out : TxOut) (outs : List TxOut) (old : Option Row)
    → or_old
        (if same && (first == vout) then some (out.script_pubkey, out.n_value) else old)
        (if same then output_at (first + 1) outs vout else none)
      ≡ or_old old (if same then output_at first (out ∷ outs) vout else none)
put_then false first vout out outs old = refl
put_then true first vout out outs old =
    put_one (first == vout) (out.script_pubkey, out.n_value) old (output_at (first + 1) outs vout)
      (λ e. output_at-early (first + 1) vout outs (ground (arith, e)))

pub or_none :
    (a b : Bool) (old : Option Row)
    → (if a || b then none else old) ≡ (if b then none else (if a then none else old))
or_none true true old = refl
or_none true false old = refl
or_none false b old = refl
