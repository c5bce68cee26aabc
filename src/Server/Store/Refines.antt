-- ===== src/Server/Store/Refines.antt =====
-- The store as its clients see it: a map from signers to records, whatever calls break.
use mathlib.Core.Logic.{ite}
use sponsor.Common.{◌≡◌, refl, sym, ◌∙◌, inl, inr, List, [], ◌∷◌, All, Option, some, String}
use sponsor.Common.Result.{Result, ok, err, ok-injective, Result-cases}
use sponsor.Common.Action.{Ends-ok, Ends-err}
use sponsor.Crates.{Crates}
use sponsor.Server.Store.{GrantRecord, IsRecord}
use sponsor.Server.Store.Redb.{Redb}
use sponsor.Server.Store.Table.{put_grant, get_grant, decode_row}
use sponsor.Server.Store.Grants.{
  put_grant_atomic, get_grant_reads, get_grant-rows, decode_row-updated,
}

module _ (crates : Crates) (redb : Redb crates.Address crates.address_discrete) where
  open crates use {Address, address_discrete}
  open redb use {Db, rows}

  pub data Op : Type 0 where
    put : Address → GrantRecord → Op
    get : Address → Op

  pub data Reply : Type 0 where
    stored : Result (Unit {0}) → Reply
    found : Result (Option GrantRecord) → Reply

  -- One call.
  abbrev pub call : Op → Db → Reply × Db
  call (put signer rec) db = let (r, db') = put_grant crates redb signer rec db in (stored r, db')
  call (get signer) db = let (r, db') = get_grant crates redb signer db in (found r, db')

  -- One call after the other.
  unfoldable pub calls : List Op → Db → List Reply × Db
  calls [] db = ([], db)
  calls (op ∷ ops) db =
      let (r, db') = call op db in let (rs, db'') = calls ops db' in (r ∷ rs, db'')

  abbrev pub Grants : Type 0
  Grants = Address → Option GrantRecord

  abbrev pub set : Address → GrantRecord → Grants → Grants
  set signer rec m j = ite (address_discrete signer j) (some rec) (m j)

  -- What a map answers to the calls: a call may also break, and has then changed nothing.
  pub data Replays : Grants → List Op → List Reply → Grants → Type 0 where
    done : (m : Grants) → Replays m [] [] m
    put_ok :
        {m m' : Grants} {signer : Address} {rec : GrantRecord} {ops : List Op} {rs : List Reply}
        → Replays (set signer rec m) ops rs m'
        → Replays m (put signer rec ∷ ops) (stored (ok tt) ∷ rs) m'
    get_ok :
        {m m' : Grants} {signer : Address} {ops : List Op} {rs : List Reply}
        → Replays m ops rs m'
        → Replays m (get signer ∷ ops) (found (ok (m signer)) ∷ rs) m'
    put_broke :
        {m m' : Grants} {signer : Address} {rec : GrantRecord} {ops : List Op} {rs : List Reply}
        (e : String)
        → Replays m ops rs m'
        → Replays m (put signer rec ∷ ops) (stored (err e) ∷ rs) m'
    get_broke :
        {m m' : Grants} {signer : Address} {ops : List Op} {rs : List Reply} (e : String)
        → Replays m ops rs m'
        → Replays m (get signer ∷ ops) (found (err e) ∷ rs) m'

  -- Each row decodes to what the map says.
  abbrev pub Represents : Grants → Db → Type 0
  Represents m db = (j : Address) → decode_row (rows db j) ≡ ok (m j)

  Represents-of_rows :
      (m : Grants) (db db' : Db) → rows db' ≡ rows db → Represents m db → Represents m db'
  Represents-of_rows m db db' same h j = rw same (h j)

  Represents-put_grant :
      (m : Grants) (signer : Address) (rec : GrantRecord) (db : Db)
      → IsRecord rec
      → Represents m db
      → (put_grant crates redb signer rec db).0 ≡ ok tt
      → Represents (set signer rec m) (put_grant crates redb signer rec db).1
  Represents-put_grant m signer rec db i h wrote j =
      rw (Ends-ok _ _ _ _ (put_grant_atomic crates redb signer rec db) wrote) (
        decode_row-updated crates redb signer j rec (rows db) i
        ∙ of_ite (address_discrete signer j))
    where
      of_ite :
          (d : Dec (signer ≡ j))
          → ite d (ok (some rec)) (decode_row (rows db j)) ≡ ok (ite d (some rec) (m j))
      of_ite (yes same) = refl
      of_ite (no other) = h j

  -- Every record that is put fits its format.
  abbrev pub Fits : Op → Type 0
  Fits (put signer rec) = IsRecord rec
  Fits (get signer) = Unit

  -- The store implements a map from signers to records: over any sequence of calls that puts
  -- records within their format, from a database whose rows decode to a map, each call answers as
  -- the map does and a put that succeeds sets its one signer; a call may also fail, and has then
  -- changed nothing; at the end the rows decode to the map that was reached.
  pub calls-Replays :
      (ops : List Op) (m : Grants) (db : Db)
      → All Fits ops
      → Represents m db
      → (m' : Grants) × Replays m ops (calls ops db).0 m' × Represents m' (calls ops db).1
  unfolding calls
  calls-Replays [] m db fits h = (m, done m, h)
  calls-Replays (put signer rec ∷ ops) m db (i, fits) h =
      let db' = (put_grant crates redb signer rec db).1 in
      let atomic = put_grant_atomic crates redb signer rec db in
      elim (Result-cases (put_grant crates redb signer rec db).0) [
        | inl (u, wrote) ↦
            let (m', r, h') =
              calls-Replays ops (set signer rec m) db' fits
                (Represents-put_grant m signer rec db i h wrote) in
            (m', rw wrote (put_ok r), h')
        | inr (e, failed) ↦
            let (m', r, h') =
              calls-Replays ops m db' fits
                (Represents-of_rows m db db' (Ends-err _ _ _ _ atomic failed) h) in
            (m', rw failed (put_broke e r), h')
      ]
  calls-Replays (get signer ∷ ops) m db (_, fits) h =
      let db' = (get_grant crates redb signer db).1 in
      let (m', r, h') =
        calls-Replays ops m db' fits
          (Represents-of_rows m db db' (get_grant-rows crates redb signer db) h) in
      elim (Result-cases (get_grant crates redb signer db).0) [
        | inl (o, got) ↦
            let (read, _) = Ends-ok _ _ _ _ (get_grant_reads crates redb signer db) got in
            let same : m signer ≡ o = ok-injective (sym (h signer) ∙ read) in
            (m', rw (got, sym same) (get_ok r), h')
        | inr (e, got) ↦ (m', rw got (get_broke e r), h')
      ]
