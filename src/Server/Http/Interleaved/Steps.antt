-- ===== src/Server/Http/Interleaved/Steps.antt =====
-- What one part of a request does to the store, whatever ran before it.
use mathlib.Core.Logic.{ite, if_pos}
use sponsor.Common.{ℕ, ◌≡◌, refl, ◌∙◌, ◌<◌, some, arith, inl, inr}
use sponsor.Common.Result.{Result, ok, err, Result-cases}
use sponsor.Common.Action.{Ends-ok, Ends-err}
use sponsor.Common.Words.{u64_max}
use sponsor.Common.Text.{Text}
use sponsor.Crates.{Crates}
use sponsor.Server.Store.{GrantRecord}
use sponsor.Server.Store.Redb.{Redb}
use sponsor.Server.Store.Grants.{updated, put_grant_atomic, decode_row-updated}
use sponsor.Server.Store.Table.{put_grant, decode_row}
use sponsor.Server.Issuer.{issue}
use sponsor.Server.State.{AppState}
use sponsor.Server.Http.{Response, token_json}
use sponsor.Server.Http.Fund.{internal, record_of, save}
use sponsor.Server.Http.Fund.Ledger.{
  IsConsistent, IsIssued, IsLedger, IsLedger-of_rows, IsIssued-record_of, IsLedger-of_updated,
}

module _ (crates : Crates) (redb : Redb crates.Address crates.address_discrete) {Chain : Type 0}
    (state : AppState crates Chain) where
  open crates use {Address, address_discrete}
  open redb use {Db, rows}

  -- The client holds some record.
  abbrev pub HasRow : Db → Address → Type 0
  HasRow db client = (rec : GrantRecord) × (decode_row (rows db client) ≡ ok (some rec))

  -- No client loses its record.
  abbrev pub Grows : Db → Db → Type 0
  Grows db db' = (client : Address) → HasRow db client → HasRow db' client

  pub Grows-of_rows : {db db' : Db} → rows db' ≡ rows db → Grows db db'
  Grows-of_rows same client (rec, held) = (rec, rw same held)

  -- How a write ends.
  pub data Saved (client : Address) (now : ℕ) (db : Db) (resp : Response) (db' : Db) : Type 0 where
    unsaved : resp ≡ internal → rows db' ≡ rows db → Saved client now db resp db'
    saved :
        (token : Text) (expiry : ℕ)
        → issue crates state.issuer client now ≡ ok (token, expiry)
        → resp ≡ token_json token
        → rows db'
          ≡ updated crates redb client (record_of crates redb state token expiry now) (rows db)
        → Saved client now db resp db'

  pub save-Saved :
      (client : Address) (now : ℕ) (db : Db) (issued : Result (Text × ℕ))
      → issue crates state.issuer client now ≡ issued
      → Saved client now db
          (save crates redb state client now issued db).0
          (save crates redb state client now issued db).1
  save-Saved client now db (err e) issued = unsaved refl refl
  save-Saved client now db (ok (token, expiry)) issued =
      let rec = record_of crates redb state token expiry now in
      let atomic = put_grant_atomic crates redb client rec db in
      elim (Result-cases (put_grant crates redb client rec db).0) [
        | inl (u, put) ↦ saved token expiry issued (rw put) (Ends-ok _ _ _ _ atomic put)
        | inr (e, put) ↦ unsaved (rw put) (Ends-err _ _ _ _ atomic put)
      ]

  pub Saved-IsLedger :
      {client : Address} {now : ℕ} {db db' : Db} {resp : Response}
      → IsConsistent crates redb state
      → now < u64_max
      → IsLedger crates redb state db
      → Saved client now db resp db'
      → IsLedger crates redb state db'
  Saved-IsLedger c h l (unsaved answer same) = IsLedger-of_rows crates redb state same l
  Saved-IsLedger {client} {now} {db} c h l (saved token expiry issued answer wrote) =
      IsLedger-of_updated crates redb state db client _ l
        (IsIssued-record_of crates redb state c client now token expiry (omega arith) issued) wrote

  HasRow-updated :
      (db : Db) (client j : Address) (rec : GrantRecord)
      → IsIssued crates redb state client rec
      → HasRow db j
      → (rec' : GrantRecord) × (decode_row (updated crates redb client rec (rows db) j)
          ≡ ok (some rec'))
  HasRow-updated db client j rec i (old, held) =
      let now = decode_row-updated crates redb client j rec (rows db) i.is_record in
      elim (address_discrete client j)
          as (λ d.
            decode_row (updated crates redb client rec (rows db) j)
              ≡ ite d (ok (some rec)) (decode_row (rows db j))
            → (rec' : GrantRecord) × (decode_row (updated crates redb client rec (rows db) j)
                ≡ ok (some rec'))) [ yes same ↦ λ e. (rec, e) | no other ↦ λ e. (old, e ∙ held) ]
        now

  pub Saved-Grows :
      {client : Address} {now : ℕ} {db db' : Db} {resp : Response}
      → IsConsistent crates redb state
      → now < u64_max
      → Saved client now db resp db'
      → Grows db db'
  Saved-Grows c h (unsaved answer same) j had = Grows-of_rows same j had
  Saved-Grows {client} {now} {db} c h (saved token expiry issued answer wrote) j had =
      let rec = record_of crates redb state token expiry now in
      let i = IsIssued-record_of crates redb state c client now token expiry (omega arith) issued in
      let (rec', held) = HasRow-updated db client j rec i had in (rec', rw wrote held)

  -- A client whose record was just written has one.
  pub HasRow-saved :
      (db : Db) (client : Address) (rec : GrantRecord)
      → IsIssued crates redb state client rec
      → {db' : Db} → rows db' ≡ updated crates redb client rec (rows db)
      → HasRow db' client
  HasRow-saved db client rec i wrote = (
    rec,
    rw wrote (
        decode_row-updated crates redb client client rec (rows db) i.is_record
        ∙ if_pos (address_discrete client client) refl _ _),
  )
