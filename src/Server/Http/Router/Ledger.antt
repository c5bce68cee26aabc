-- ===== src/Server/Http/Router/Ledger.antt =====
-- The store over any sequence of requests.
use sponsor.Common.{◌≡◌, ◌<◌, arith, refl, Option, none, some, List, [], ◌∷◌, All}
use sponsor.Common.Words.{IsU64, u64_max}
use sponsor.Common.Text.{Text}
use sponsor.Crates.{Crates}
use sponsor.Server.Store.Redb.{Redb}
use sponsor.Server.Store.Grants.{get_grant-rows}
use sponsor.Server.State.{AppState}
use sponsor.Server.Http.{Response, now_unix, Parsed, parsed, rejected, parse_client, SystemTime}
use sponsor.Server.Http.Capability.{get}
use sponsor.Server.Http.Fund.{FundRequest, submit}
use sponsor.Server.Http.Fund.Ledger.{IsConsistent, IsLedger, IsLedger-of_rows, submit-IsLedger}
use sponsor.Server.Http.Router.{
  Axum, Assets, Visit, Route, healthz_route, sh_route, ps1_route, fund_route, capability_route,
  Method, get_method, post_method, other_method, at, handle, with_query, with_body, serve,
  serve_all, route_of,
}

module _ (crates : Crates) (redb : Redb crates.Address crates.address_discrete) {Chain Req : Type 0}
    (axum : Axum Req) (assets : Assets) (state : AppState crates Chain) where
  open redb use {Db, rows}

  -- The verifier has no part in what a ledger is.
  module _ (v : Visit Req) where
    abbrev here : AppState crates Chain
    here = at crates redb axum assets state v

    pub IsConsistent-at : IsConsistent crates redb state → IsConsistent crates redb here
    IsConsistent-at c = record { same_cap = c.same_cap; cap_IsU64 = c.cap_IsU64 }

    pub IsLedger-at : (db : Db) → IsLedger crates redb state db → IsLedger crates redb here db
    IsLedger-at db l = record {
      row = λ client raw e.
          let (rec, same, i) = l.row client raw e in
          (
            rec,
            same,
            record { delegates = i.delegates; cap_is = i.cap_is; is_record = i.is_record },
          );
    }

    IsLedger-back : (db : Db) → IsLedger crates redb here db → IsLedger crates redb state db
    IsLedger-back db l = record {
      row = λ client raw e.
          let (rec, same, i) = l.row client raw e in
          (
            rec,
            same,
            record { delegates = i.delegates; cap_is = i.cap_is; is_record = i.is_record },
          );
    }

    get-rows :
        (time : SystemTime) (client : Text) (db : Db)
        → rows (get crates redb time client db).1 ≡ rows db
    unfolding get
    get-rows time client db = from (parse_client crates client) refl
      where
        from :
            (p : Parsed crates.Address)
            → parse_client crates client ≡ p
            → rows (get crates redb time client db).1 ≡ rows db
        from (parsed a) e = rw (e, get) (get_grant-rows crates redb a db)
        from (rejected resp) e = rw (e, get) refl

    query-Kept :
        (handler : Text → Db → Response × Db) (q : Parsed Text) (db : Db)
        → ((client : Text) → rows (handler client db).1 ≡ rows db)
        → IsLedger crates redb state db
        → IsLedger crates redb state (with_query crates redb axum assets state handler q db).1
    query-Kept handler (parsed client) db same l =
        IsLedger-of_rows crates redb state (same client) l
    query-Kept handler (rejected resp) db same l = l

    body-Kept :
        IsConsistent crates redb state
        → IsU64 (now_unix v.time)
        → (b : Parsed FundRequest) (db : Db) → IsLedger crates redb state db
        → IsLedger crates redb state
            (with_body crates redb axum assets state (submit crates redb here v.time) b db).1
    body-Kept c h (parsed req) db l =
        IsLedger-back _
          (submit-IsLedger crates redb here (IsConsistent-at c) v.time req db h (IsLedger-at db l))
    body-Kept c h (rejected resp) db l = l

    handle-Kept :
        IsConsistent crates redb state
        → IsU64 (now_unix v.time)
        → (r : Option Route) (method : Method) (db : Db) → IsLedger crates redb state db
        → IsLedger crates redb state (handle crates redb axum assets state v r method db).1
    handle-Kept c h (some fund_route) get_method db l =
        query-Kept _ (axum.query_client v.request) db (λ client. refl) l
    handle-Kept c h (some fund_route) post_method db l =
        body-Kept c h (axum.fund_body v.request) db l
    handle-Kept c h (some fund_route) other_method db l = l
    handle-Kept c h (some capability_route) get_method db l =
        query-Kept (get crates redb v.time) (axum.query_client v.request) db
          (λ client. get-rows v.time client db) l
    handle-Kept c h (some capability_route) post_method db l = l
    handle-Kept c h (some capability_route) other_method db l = l
    handle-Kept c h (some healthz_route) get_method db l = l
    handle-Kept c h (some healthz_route) post_method db l = l
    handle-Kept c h (some healthz_route) other_method db l = l
    handle-Kept c h (some sh_route) get_method db l = l
    handle-Kept c h (some sh_route) post_method db l = l
    handle-Kept c h (some sh_route) other_method db l = l
    handle-Kept c h (some ps1_route) get_method db l = l
    handle-Kept c h (some ps1_route) post_method db l = l
    handle-Kept c h (some ps1_route) other_method db l = l
    handle-Kept c h none get_method db l = l
    handle-Kept c h none post_method db l = l
    handle-Kept c h none other_method db l = l

    pub serve-IsLedger :
        IsConsistent crates redb state
        → IsU64 (now_unix v.time)
        → (db : Db) → IsLedger crates redb state db
        → IsLedger crates redb state (serve crates redb axum assets state v db).1
    unfolding serve
    serve-IsLedger c h db l =
        handle-Kept c h (route_of (axum.path v.request)) (axum.method v.request) db l

  pub serve_all-IsLedger :
      IsConsistent crates redb state
      → (vs : List (Visit Req)) (db : Db) → All (λ (v : Visit Req). now_unix v.time < u64_max) vs
      → IsLedger crates redb state db
      → IsLedger crates redb state (serve_all crates redb axum assets state vs db).1
  unfolding serve_all
  serve_all-IsLedger c [] db h l = l
  serve_all-IsLedger c (v ∷ vs) db (now, h) l =
      serve_all-IsLedger c vs (serve crates redb axum assets state v db).1 h
        (serve-IsLedger v c (omega arith) db l)
