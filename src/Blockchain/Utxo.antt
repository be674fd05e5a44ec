-- ===== src/Blockchain/Utxo.antt =====
-- blockchain/utxo.py. The SQLite connection is a parameter: the statements that the class executes,
-- and what SQLite documents of them.
use bitcoin_script.Prelude.{
  ℕ, ◌≡◌, Bool, true, false, ◌&&◌, Option, none, some, Bytes, bytes_eq, if◌then◌else◌, ◌==◌,
}
use bitcoin_script.Prelude.Int.{ℤ}
use bitcoin_script.Errors.{Error, Result, ok, err}

-- The columns `script` and `amount`.
abbrev pub Row : Type 0
Row = Bytes × ℤ

abbrev pub same_outpoint : Bytes → ℕ → Bytes → ℕ → Bool
same_outpoint txid vout txid' vout' = bytes_eq txid txid' && (vout == vout')

-- A connection at some moment, and the statements of the class. INSERT answers nothing where it raises
-- sqlite3.IntegrityError.
pub record Table (Db : Type 0) : Type 0 where
  pub select : Db → Bytes → ℕ → Option Row
  pub insert : Db → Bytes → ℕ → Row → Option Db
  pub replace : Db → Bytes → ℕ → Row → Db
  pub delete : Db → Bytes → ℕ → Db
  pub count : Db → ℕ
  pub select_height : Db → ℤ
  pub update_height : Db → ℤ → Db

-- The table has (txid, vout) as its primary key, and the height stands in another table.
pub record IsTable {Db : Type 0} (t : Table Db) : Type 0 where
  pub select-delete :
      (db : Db) (txid : Bytes) (vout : ℕ) (txid' : Bytes) (vout' : ℕ)
      → t.select (t.delete db txid vout) txid' vout'
        ≡ (if same_outpoint txid vout txid' vout' then none else t.select db txid' vout')
  pub select-replace :
      (db : Db) (txid : Bytes) (vout : ℕ) (row : Row) (txid' : Bytes) (vout' : ℕ)
      → t.select (t.replace db txid vout row) txid' vout'
        ≡ (if same_outpoint txid vout txid' vout' then some row else t.select db txid' vout')
  pub insert_fresh :
      (db : Db) (txid : Bytes) (vout : ℕ) (row : Row)
      → t.select db txid vout ≡ none
      → t.insert db txid vout row ≡ some (t.replace db txid vout row)
  pub insert_taken :
      (db : Db) (txid : Bytes) (vout : ℕ) (row old : Row)
      → t.select db txid vout ≡ some old
      → t.insert db txid vout row ≡ none
  pub select-update_height :
      (db : Db) (height : ℤ) (txid : Bytes) (vout : ℕ)
      → t.select (t.update_height db height) txid vout ≡ t.select db txid vout
  pub select_height-update_height :
      (db : Db) (height : ℤ) → t.select_height (t.update_height db height) ≡ height

module _ {Db : Type 0} (t : Table Db) where
  unfoldable pub add : Db → Bytes → ℕ → Bytes → ℤ → Bool → Result Db
  add db txid vout script amount true = ok (t.replace db txid vout (script, amount))
  add db txid vout script amount false = elim (t.insert db txid vout (script, amount)) [
    | none ↦ err Error.library_error
    | some db' ↦ ok db'
  ]

  unfoldable pub spend : Db → Bytes → ℕ → Result Row × Db
  spend db txid vout = elim (t.select db txid vout) [
    | none ↦ (err Error.key_error, db)
    | some row ↦ (ok row, t.delete db txid vout)
  ]

  unfoldable pub get : Db → Bytes → ℕ → Option Row
  get db txid vout = t.select db txid vout

  unfoldable pub size : Db → ℕ
  size db = t.count db

  unfoldable pub checkpoint_height : Db → ℤ
  checkpoint_height db = t.select_height db

  unfoldable pub set_checkpoint_height : Db → ℤ → Db
  set_checkpoint_height db height = t.update_height db height
