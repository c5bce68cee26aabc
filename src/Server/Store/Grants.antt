-- ===== src/Server/Store/Grants.antt =====
-- The laws of `put_grant` and `get_grant`: a table of records by signer.
use mathlib.Core.Logic.{ite}
use sponsor.Common.{ℕ, ◌≡◌, refl, sym, ap, ◌∙◌, inl, inr, List, Option, some, fun_ext}
use sponsor.Common.Result.{ok, Result-cases}
use sponsor.Common.Action.{lift, Ends, Ends-bind, Ends-cases, Ends-ok, Ends-err}
use sponsor.Crates.{Crates}
use sponsor.Server.Store.{GrantRecord, IsRecord, encode}
use sponsor.Server.Store.Codec.{decode-encode}
use sponsor.Server.Store.Redb.{Redb}
use sponsor.Server.Store.Table.{create_table, put_grant, get_grant, decode_row}

pub decode_row-encode :
    (rec : GrantRecord) → IsRecord rec → decode_row (some (encode rec)) ≡ ok (some rec)
unfolding decode_row
decode_row-encode rec h = rw (decode-encode rec h, decode_row)

module _ (crates : Crates) (redb : Redb crates.Address crates.address_discrete) where
  open crates use {Address, address_discrete}
  open redb use {
    Db, WriteTxn, begin_write, open_table, insert, commit, begin_read, open_read_table, get, rows,
    staged, seen, begin_write-rows, begin_write-staged, open_table-staged, insert-staged, commit_ok,
    commit_err, begin_read-rows, begin_read-seen, open_read_table-seen, get-seen,
  }

  -- The rows after `encode rec` was written under `signer`.
  abbrev pub updated :
      Address → GrantRecord → (Address → Option (List ℕ)) → Address → Option (List ℕ)
  updated signer rec before j = ite (address_discrete signer j) (some (encode rec)) (before j)

  abbrev pub Unchanged : Db → Db → Type 0
  Unchanged db db' = rows db' ≡ rows db

  -- `put_grant` writes the row of its signer and no other when it succeeds, and changes no row
  -- when it fails.
  pub put_grant_atomic :
      (signer : Address) (rec : GrantRecord) (db : Db)
      → Ends
          (λ _ db'. rows db' ≡ updated signer rec (rows db))
          (Unchanged db)
          (put_grant crates redb signer rec db)
  unfolding put_grant
  put_grant_atomic signer rec db =
      Ends-bind _ _ begin_write _ db
        (λ w hw.
          Ends-bind _ _ (lift (open_table w)) _ (begin_write db).1
            (λ t ht.
              Ends-bind _ _ (lift (insert t signer (encode rec))) _ (begin_write db).1
                (λ t' ht'.
                  Ends-cases _ _ (commit t' (begin_write db).1).0 _
                    (λ u hu.
                      commit_ok t' _ hu
                      ∙ fun_ext (λ j.
                        insert-staged t t' signer _ ht' j
                        ∙ rw (open_table-staged w t ht, begin_write-staged db w hw)))
                    (λ e he. commit_err t' _ he ∙ begin_write-rows db))
                (λ e he. begin_write-rows db))
            (λ e he. begin_write-rows db))
        (λ e he. begin_write-rows db)

  -- A read of the store changes no row, and gives what the row of its signer decodes to.
  pub get_grant_reads :
      (signer : Address) (db : Db)
      → Ends
          (λ o db'. (decode_row (rows db signer) ≡ ok o) × Unchanged db db')
          (Unchanged db)
          (get_grant crates redb signer db)
  unfolding get_grant
  get_grant_reads signer db =
      Ends-bind _ _ begin_read _ db
        (λ r hr.
          Ends-bind _ _ (lift (open_read_table r)) _ (begin_read db).1
            (λ t ht.
              Ends-bind _ _ (lift (get t signer)) _ (begin_read db).1
                (λ raw hraw.
                  Ends-cases _ _ (decode_row raw) _
                    (λ o ho. (
                      ap (decode_row) (
                            sym (
                              get-seen t signer raw hraw
                              ∙ rw (open_read_table-seen r t ht, begin_read-seen db r hr)))
                          ∙ ho,
                      begin_read-rows db,
                    ))
                    (λ e he. begin_read-rows db))
                (λ e he. begin_read-rows db))
            (λ e he. begin_read-rows db))
        (λ e he. begin_read-rows db)

  -- Creating the table leaves every row of a database that has some already.
  pub create_table_keeps :
      (db : Db) → Ends (λ _ db'. Unchanged db db') (Unchanged db) (create_table crates redb db)
  unfolding create_table
  create_table_keeps db =
      Ends-bind _ _ begin_write _ db
        (λ w hw.
          Ends-bind _ _ (lift (open_table w)) _ (begin_write db).1
            (λ t ht.
              Ends-cases _ _ (commit t (begin_write db).1).0 _
                (λ u hu.
                  commit_ok t _ hu ∙ rw (open_table-staged w t ht) (begin_write-staged db w hw))
                (λ e he. commit_err t _ he ∙ begin_write-rows db))
            (λ e he. begin_write-rows db))
        (λ e he. begin_write-rows db)

  pub decode_row-updated :
      (signer j : Address) (rec : GrantRecord) (before : Address → Option (List ℕ))
      → IsRecord rec
      → decode_row (updated signer rec before j)
        ≡ ite (address_discrete signer j) (ok (some rec)) (decode_row (before j))
  decode_row-updated signer j rec before h =
      elim (address_discrete signer j)
        as (λ d.
          decode_row (ite d (some (encode rec)) (before j))
          ≡ ite d (ok (some rec)) (decode_row (before j))) [
            | yes same ↦ decode_row-encode rec h
            | no other ↦ refl
          ]

  -- After a record was stored, a read that succeeds gives that record for its signer, and for any
  -- other signer what its row held before.
  pub get_grant-put_grant :
      (signer j : Address) (rec : GrantRecord) (db : Db) (o : Option GrantRecord)
      → IsRecord rec
      → (put_grant crates redb signer rec db).0 ≡ ok tt
      → (get_grant crates redb j (put_grant crates redb signer rec db).1).0 ≡ ok o
      → ok o ≡ ite (address_discrete signer j) (ok (some rec)) (decode_row (rows db j))
  get_grant-put_grant signer j rec db o h stored read =
      let db' = (put_grant crates redb signer rec db).1 in
      let written = Ends-ok _ _ _ _ (put_grant_atomic signer rec db) stored in
      let (found, _) = Ends-ok _ _ _ _ (get_grant_reads j db') read in
      sym found ∙ rw written (decode_row-updated signer j rec (rows db) h)

  pub get_grant-rows :
      (signer : Address) (db : Db) → Unchanged db (get_grant crates redb signer db).1
  get_grant-rows signer db =
      let reads = get_grant_reads signer db in
      elim (Result-cases (get_grant crates redb signer db).0) [
        | inl (o, found) ↦ (Ends-ok _ _ _ _ reads found).1
        | inr (e, failed) ↦ Ends-err _ _ _ _ reads failed
      ]
