-- ===== src/Server/Store/Redb.antt =====
-- The embedded database that store.rs calls: transactions over one table, by key.
use sponsor.Common.{ℕ, ◌≡◌, List, Option, some, String}
use sponsor.Common.Result.{Result, ok, err}
use sponsor.Common.Action.{Action}
use mathlib.Core.Logic.{ite}

-- Redb's operations on the table GRANTS. `rows` is what is committed, `staged` what a write
-- transaction holds, `seen` what a read transaction reads. A write that fails or is dropped before
-- its commit leaves the committed rows as they were.
pub record Redb (Key : Type 0) (same : Discrete Key) : Type 1 where
  pub Disk : Type 0
  pub Db : Type 0
  pub WriteTxn : Type 0
  pub ReadTxn : Type 0
  pub create_dir_all : List ℕ → Action Disk (Unit {0})
  pub create : List ℕ → Action Disk Db
  pub begin_write : Action Db WriteTxn
  pub open_table : WriteTxn → Result WriteTxn
  pub insert : WriteTxn → Key → List ℕ → Result WriteTxn
  pub commit : WriteTxn → Action Db (Unit {0})
  pub begin_read : Action Db ReadTxn
  pub open_read_table : ReadTxn → Result ReadTxn
  pub get : ReadTxn → Key → Result (Option (List ℕ))
  pub rows : Db → Key → Option (List ℕ)
  pub staged : WriteTxn → Key → Option (List ℕ)
  pub seen : ReadTxn → Key → Option (List ℕ)
  pub begin_write-rows : (d : Db) → rows (begin_write d).1 ≡ rows d
  pub begin_write-staged : (d : Db) (w : WriteTxn) → (begin_write d).0 ≡ ok w → staged w ≡ rows d
  pub open_table-staged : (w w' : WriteTxn) → open_table w ≡ ok w' → staged w' ≡ staged w
  pub insert-staged :
      (w w' : WriteTxn) (k : Key) (v : List ℕ)
      → insert w k v ≡ ok w'
      → (j : Key) → staged w' j ≡ ite (same k j) (some v) (staged w j)
  pub commit_ok : (w : WriteTxn) (d : Db) → (commit w d).0 ≡ ok tt → rows (commit w d).1 ≡ staged w
  pub commit_err :
      {e : String} (w : WriteTxn) (d : Db) → (commit w d).0 ≡ err e → rows (commit w d).1 ≡ rows d
  pub begin_read-rows : (d : Db) → rows (begin_read d).1 ≡ rows d
  pub begin_read-seen : (d : Db) (r : ReadTxn) → (begin_read d).0 ≡ ok r → seen r ≡ rows d
  pub open_read_table-seen : (r r' : ReadTxn) → open_read_table r ≡ ok r' → seen r' ≡ seen r
  pub get-seen : (r : ReadTxn) (k : Key) (o : Option (List ℕ)) → get r k ≡ ok o → o ≡ seen r k
