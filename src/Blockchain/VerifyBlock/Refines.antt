-- ===== src/Blockchain/VerifyBlock/Refines.antt =====
-- The UTXO set that a block leaves behind.
use std.Path.{fun_ext}
use bitcoin_script.Prelude.{
  ℕ, ◌+◌, ◌≡◌, sym, ap, ◌∙◌, Bool, true, false, Option, none, List, [], ◌∷◌, Bytes, bytes_eq,
  if◌then◌else◌, ◌==◌,
}
use bitcoin_script.Prelude.Int.{pos}
use bitcoin_script.Errors.{ok, ok-inj}
use bitcoin_script.Blockchain.Flags.{flags_for_block}
use bitcoin_script.Blockchain.Transaction.{Transaction, Block}
use bitcoin_script.Blockchain.Sighash.{Signatures}
use bitcoin_script.Blockchain.Utxo.{Row, Table, IsTable, checkpoint_height, set_checkpoint_height}
use bitcoin_script.Blockchain.Tasks.{Judge}
use bitcoin_script.Blockchain.VerifyBlock.{
  BlockResult, verify_block_inner, verify_tx, verify_txs, Progress,
}
use bitcoin_script.Blockchain.VerifyBlock.View.{
  View, output_at, or_old, inputs_spent, after_tx, after_txs,
}
use bitcoin_script.Blockchain.VerifyBlock.Store.{select-spend_inputs, select-add_outputs}
use bitcoin_script.Blockchain.VerifyBlock.Steps.{
  inputs_of, verify_inputs_parts, verify_tx_parts, verify_txs_parts, verify_block_inner_parts,
}

module _ {Db : Type 0} (t : Table Db) (laws : IsTable t) where
  module _ {Msg : Type 0} (lib : Signatures) (judge : Judge Msg) (height flags : ℕ) where
    select-inputs_of :
        (is_coinbase : Bool) (db : Db) (tx : Transaction) (tx_idx : ℕ) (p : Progress Msg Db)
        (txid : Bytes) (vout : ℕ)
        → inputs_of t lib judge height flags is_coinbase db tx tx_idx ≡ ok p
        → t.select p.db txid vout ≡ inputs_spent is_coinbase (t.select db) tx.vin txid vout
    unfolding inputs_of
    select-inputs_of true db tx tx_idx p txid vout h =
        ap (λ (q : Progress Msg Db). t.select q.db txid vout) (sym (ok-inj h))
    select-inputs_of false db tx tx_idx p txid vout h =
        let (c, _, _, stored) = verify_inputs_parts t lib judge height flags db tx tx_idx p h in
        ap (λ (d : Db). t.select d txid vout) (sym stored)
        ∙ select-spend_inputs t laws db tx.vin txid vout

    pub select-verify_tx :
        (db : Db) (tx : Transaction) (tx_idx : ℕ) (p : Progress Msg Db)
        → verify_tx t lib judge height flags db tx tx_idx ≡ ok p
        → t.select p.db ≡ after_tx (t.select db) tx_idx tx
    select-verify_tx db tx tx_idx p h =
        let (q, inputs, added, _) = verify_tx_parts t lib judge height flags db tx tx_idx p h in
        fun_ext (λ txid. fun_ext (λ vout.
          select-add_outputs t laws height q.db p.db tx.txid 0 tx.vout txid vout added
          ∙ ap
              (λ (old : Option Row).
                or_old old (if bytes_eq tx.txid txid then output_at 0 tx.vout vout else none))
              (select-inputs_of (tx_idx == 0) db tx tx_idx q txid vout inputs)))

    select-verify_txs :
        (db : Db) (tx_idx : ℕ) (txs : List Transaction) (p : Progress Msg Db)
        → verify_txs t lib judge height flags db tx_idx txs ≡ ok p
        → t.select p.db ≡ after_txs (t.select db) tx_idx txs
    unfolding verify_txs
    select-verify_txs db tx_idx [] p h =
        ap (λ (q : Progress Msg Db). t.select q.db) (sym (ok-inj h))
    select-verify_txs db tx_idx (tx ∷ txs) p h =
        let (q, q', first, others, same, _) =
          verify_txs_parts t lib judge height flags db tx_idx tx txs p h in
        ap t.select (sym same)
        ∙ select-verify_txs q.db (tx_idx + 1) txs q' others
        ∙ ap (λ (view : View). after_txs view (tx_idx + 1) txs)
            (select-verify_tx db tx tx_idx q first)

  -- Where the verification of a block ends without an exception, it leaves the UTXO set that the
  -- transactions make of the one before, in order: each but the first takes away the outpoints that its
  -- inputs name, each adds its outputs under its txid; and the checkpoint is at the height of the
  -- block. This holds whatever the errors of the block are.
  pub verify_block_inner-after_txs :
      {Msg : Type 0} (lib : Signatures) (judge : Judge Msg) (db : Db) (block : Block) (height : ℕ)
      (r : BlockResult Msg) (db' : Db)
      → verify_block_inner t lib judge db block height ≡ ok (r, db')
      → (t.select db' ≡ after_txs (t.select db) 0 block.vtx)
        × (checkpoint_height t db' ≡ pos height)
  unfolding set_checkpoint_height checkpoint_height
  verify_block_inner-after_txs lib judge db block height r db' h =
      let (p, done, _, stored) = verify_block_inner_parts t lib judge db block height r db' h in
      (
        ap t.select (sym stored)
            ∙ fun_ext
                (λ txid. fun_ext (λ vout. laws.select-update_height p.db (pos height) txid vout))
            ∙ select-verify_txs lib judge height (flags_for_block height block.n_time) db 0
                block.vtx p done,
        ap t.select_height (sym stored) ∙ laws.select_height-update_height p.db (pos height),
      )
