-- ===== src/Server/Http/Interleaved/Alone.antt =====
-- A request that no other runs beside.
use sponsor.Common.{
  ◌≡◌, refl, Bool, true, false, Option, none, some, List, [], ◌∷◌, ltb, Bool-cases, inl, inr, ap,
}
use sponsor.Common.Result.{Result, ok, err}
use sponsor.Crates.{Crates}
use sponsor.Server.Store.{GrantRecord}
use sponsor.Server.Store.Redb.{Redb}
use sponsor.Server.Store.Table.{get_grant}
use sponsor.Server.State.{AppState}
use sponsor.Server.Http.{Response, now_unix, Parsed, parsed, rejected, parse_client}
use sponsor.Server.Http.Fund.{reuse_or_issue, grant, after_captcha, submit}
use sponsor.Server.Http.Interleaved.{
  Call, Phase, received, answered, Task, checked, looked_up, advance, step_at, interleave,
}

module _ (crates : Crates) (redb : Redb crates.Address crates.address_discrete) {Chain : Type 0}
    (state : AppState crates Chain) (v : Call) where
  open crates use {Address}
  open redb use {Db}

  abbrev finished : Response × Db → Phase Address × Db
  finished x = (answered x.0, x.1)

  abbrev then_advance : Phase Address × Db → Phase Address × Db
  then_advance x = advance crates redb state v x.0 x.1

  lookup-step :
      (client : Address) (found : Result (Option GrantRecord)) (db : Db)
      → then_advance (looked_up crates redb state client (now_unix v.time) found, db)
        ≡ finished (reuse_or_issue crates redb state client (now_unix v.time) found db)
  unfolding advance
  lookup-step client (ok (some rec)) db = elim (Bool-cases (ltb (now_unix v.time) rec.expiry)) [
    | inl live ↦ rw live refl
    | inr lapsed ↦ rw lapsed refl
  ]
  lookup-step client (ok none) db = refl
  lookup-step client (err e) db = refl

  captcha-steps :
      (client : Address) (verdict : Result Bool) (db : Db)
      → then_advance (then_advance (checked crates redb state client verdict, db))
        ≡ finished (after_captcha crates redb state client (now_unix v.time) verdict db)
  unfolding advance grant
  captcha-steps client (ok true) db =
      lookup-step client (get_grant crates redb client db).0 (get_grant crates redb client db).1
  captcha-steps client (ok false) db = refl
  captcha-steps client (err e) db = refl

  -- The state, with the verifier that this request meets.
  abbrev met : AppState crates Chain
  met = record {
    treasury = state.treasury;
    issuer = state.issuer;
    turnstile = v.verifier;
    cfg = state.cfg;
  }

  parsed-steps :
      (p : Parsed Address) (db : Db)
      → parse_client crates v.request.client ≡ p
      → then_advance (then_advance (advance crates redb state v received db))
        ≡ finished (submit crates redb met v.time v.request db)
  unfolding advance submit grant
  parsed-steps (parsed client) db e = rw (e, advance, submit) (captcha-steps client _ db)
  parsed-steps (rejected resp) db e = rw (e, advance, submit) refl

  abbrev task : Phase Address → Task Address
  task phase = record { call = v; phase = phase }

  -- A `POST /fund` request whose three parts run with no other between them is answered as
  -- `submit` answers it with the same clock and verifier, leaves the store that `submit` leaves,
  -- and leaves the other requests where they were.
  interleave-submit :
      (others : List (Task Address)) (db : Db)
      → interleave crates redb state (0 ∷ 0 ∷ 0 ∷ []) (task received ∷ others) db ≡ (
        task (answered (submit crates redb met v.time v.request db).0) ∷ others,
        (submit crates redb met v.time v.request db).1,
      )
  unfolding interleave step_at
  interleave-submit others db =
      ap (λ (x : Phase Address × Db). (task x.0 ∷ others, x.1)) (parsed-steps _ db refl)
