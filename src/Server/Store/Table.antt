-- ===== src/Server/Store/Table.antt =====
-- crates/server/src/store.rs: `Store::open`, `put_grant` and `get_grant` over the database.
use sponsor.Common.{ℕ, List, Option, none, some}
use sponsor.Common.Result.{Result, ok, err}
use sponsor.Common.Action.{Action, ◌>>=◌, ◌>>◌, lift}
use sponsor.Common.Text.{Text, lit}
use sponsor.Crates.{Crates}
use sponsor.Server.Store.{GrantRecord, encode, decode}
use sponsor.Common.Text.Path.{join}
use sponsor.Server.Store.Redb.{Redb}

-- `let Some(raw) = … else { return Ok(None) }; Ok(Some(GrantRecord::decode(raw.value())?))`
unfoldable pub decode_row : Option (List ℕ) → Result (Option GrantRecord)
decode_row none = ok none
decode_row (some raw) = elim (decode raw) [ ok rec ↦ ok (some rec) | err e ↦ err e ]

module _ (crates : Crates) (redb : Redb crates.Address crates.address_discrete) where
  open crates use {Address}
  open redb use {
    Disk, Db, create_dir_all, create, begin_write, open_table, insert, commit, begin_read,
    open_read_table, get,
  }

  -- The transaction in which `Store::open` creates the table.
  unfoldable pub create_table : Action Db (Unit {0})
  create_table = do w ← begin_write; w' ← lift (open_table w); commit w'

  abbrev keep_db : Disk → Result (Unit {0}) × Db → Result Db × Disk
  keep_db disk (ok _, db) = (ok db, disk)
  keep_db disk (err e, db) = (err e, disk)

  -- Store::open
  unfoldable pub open_store : Text → Action Disk Db
  unfolding create_table
  open_store dir = do
    create_dir_all dir
    db ← create (join dir (lit "sponsor.redb"))
    λ disk. keep_db disk (create_table db)

  -- Store::put_grant
  unfoldable pub put_grant : Address → GrantRecord → Action Db (Unit {0})
  put_grant signer rec = do
    w ← begin_write
    t ← lift (open_table w)
    t' ← lift (insert t signer (encode rec))
    commit t'

  -- Store::get_grant
  unfoldable pub get_grant : Address → Action Db (Option GrantRecord)
  unfolding decode_row
  get_grant signer = do
    r ← begin_read
    t ← lift (open_read_table r)
    raw ← lift (get t signer)
    lift (decode_row raw)
