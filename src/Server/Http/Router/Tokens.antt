-- ===== src/Server/Http/Router/Tokens.antt =====
-- Whom a token that the server answers with belongs to, after any history of requests.
use sponsor.Common.{
  ℕ, ◌≡◌, ◌≢◌, ◌<◌, inl, inr, refl, ap, true, Option, none, some, List, All, arith,
}
use sponsor.Common.Words.{u64_max}
use sponsor.Common.Text.{Text, lit}
use sponsor.Common.Result.{Result, ok, err, Result-cases}
use sponsor.Common.Action.{Ends-ok}
use sponsor.Crates.{Crates}
use sponsor.Server.Store.{GrantRecord}
use sponsor.Server.Store.Redb.{Redb}
use sponsor.Server.Store.Table.{get_grant}
use sponsor.Server.Store.Grants.{get_grant_reads}
use sponsor.Server.State.{AppState}
use sponsor.Server.Http.{
  Response, ok_200, bad_request, healthz, token_json, err_json, no_content_response, now_unix,
  Parsed, parsed, rejected, parse_client,
}
use sponsor.Server.Http.Capability.{get, answer}
use sponsor.Server.Http.Page.{page}
use sponsor.Server.Http.Installer.{sh, ps1}
use sponsor.Server.Http.Fund.{FundRequest, submit}
use sponsor.Server.Http.Fund.Ledger.{IsConsistent, IsIssued, IsLedger, row-IsIssued}
use sponsor.Server.Http.Fund.Answers.{bad_request-ne-token, submit-IsAwarded}
use sponsor.Server.Http.Router.{
  Axum, Assets, Visit, Route, healthz_route, sh_route, ps1_route, fund_route, capability_route,
  Method, get_method, post_method, other_method, at, handle, with_query, with_body, serve,
  serve_all, route_of,
}
use sponsor.Server.Http.Router.Paths.{path_of_fund, path_of_capability}
use sponsor.Server.Http.Router.Ledger.{IsConsistent-at, IsLedger-at, serve_all-IsLedger}

status_of_token : (resp : Response) (t : Text) → resp ≡ token_json t → resp.status ≡ ok_200
unfolding token_json
status_of_token resp t e = ap Response.status e

module _ (crates : Crates) (redb : Redb crates.Address crates.address_discrete) {Chain Req : Type 0}
    (axum : Axum Req) (assets : Assets) (state : AppState crates Chain) where
  open crates use {Address, parse_address}
  open redb use {Db, rows}

  abbrev Polls : Visit Req → Type 0
  Polls v = (axum.method v.request ≡ get_method) × (axum.path v.request ≡ lit "/capability")

  abbrev Funds : Visit Req → Type 0
  Funds v = (axum.method v.request ≡ post_method) × (axum.path v.request ≡ lit "/fund")

  -- The token of a record that the issuer signed for the client who asks, and that has not
  -- expired: a client who polls, or one whose captcha was passed.
  pub data Given (v : Visit Req) (token : Text) : Type 0 where
    polled :
        axum.method v.request ≡ get_method
        → axum.path v.request ≡ lit "/capability"
        → (text : Text) (client : Address) (rec : GrantRecord)
        → axum.query_client v.request ≡ parsed text
        → parse_address text ≡ ok client
        → IsIssued crates redb state client rec
        → rec.token ≡ token
        → now_unix v.time < rec.expiry
        → Given v token
    funded :
        axum.method v.request ≡ post_method
        → axum.path v.request ≡ lit "/fund"
        → (req : FundRequest) (client : Address) (rec : GrantRecord)
        → axum.fund_body v.request ≡ parsed req
        → parse_address req.client ≡ ok client
        → v.verifier.verify req.turnstile_token none ≡ ok true
        → IsIssued crates redb state client rec
        → rec.token ≡ token
        → now_unix v.time < rec.expiry
        → Given v token

  answer-token :
      (now : ℕ) (o : Result (Option GrantRecord)) (token : Text)
      → answer now o ≡ token_json token
      → (rec : GrantRecord) × (o ≡ ok (some rec)) × (rec.token ≡ token) × (now < rec.expiry)
  unfolding answer token_json no_content_response err_json
  answer-token now (err e) token h = ground arith
  answer-token now (ok none) token h = ground arith
  answer-token now (ok (some rec)) token h = (rec, refl, ground arith, ground arith)

  page-ne-token : (text token : Text) → page crates assets.fund_html state text ≢ token_json token
  unfolding page token_json err_json
  page-ne-token text token h = ground arith

  module _ (v : Visit Req) (db : Db) (token : Text) (l : IsLedger crates redb state db) where
    asked-Given :
        Polls v
        → (text : Text) → axum.query_client v.request ≡ parsed text
        → (client : Address) → parse_address text ≡ ok client
        → answer (now_unix v.time) (get_grant crates redb client db).0 ≡ token_json token
        → Given v token
    asked-Given (m, path) text q client p h =
        let (rec, read, same, live) =
          answer-token (now_unix v.time) (get_grant crates redb client db).0 token h in
        let (row, kept) = Ends-ok _ _ _ _ (get_grant_reads crates redb client db) read in
        polled m path text client rec q p (row-IsIssued crates redb state l client rec row) same
          live

    get-Given :
        Polls v
        → (text : Text) → axum.query_client v.request ≡ parsed text
        → (get crates redb v.time text db).0 ≡ token_json token
        → Given v token
    unfolding get parse_client
    get-Given to text q h = elim (Result-cases (parse_address text)) [
      | inl (client, p) ↦ asked-Given to text q client p (rw (p, get) at h)
      | inr (e, p) ↦
          let no : err_json bad_request "bad_request" ≡ token_json token = rw (p, get) at h in
          absurd (bad_request-ne-token "bad_request" token no)
    ]

    submit-Given :
        IsConsistent crates redb state
        → now_unix v.time < u64_max
        → 0 < state.issuer.ttl_secs
        → Funds v
        → (req : FundRequest) → axum.fund_body v.request ≡ parsed req
        → (submit crates redb (at crates redb axum assets state v) v.time req db).0
          ≡ token_json token
        → Given v token
    submit-Given c now ttl (m, path) req b h =
        let (client, p, passed, a) =
          submit-IsAwarded crates redb (at crates redb axum assets state v)
            (IsConsistent-at crates redb axum assets state v c) v.time req db token now ttl
            (IsLedger-at crates redb axum assets state v db l) h in
        funded m path req client a.rec b p passed
          (record {
            delegates = a.issued.delegates;
            cap_is = a.issued.cap_is;
            is_record = a.issued.is_record;
          })
          a.token_is a.live

    unrouted-Given : axum.unrouted v.request ≡ token_json token → Given v token
    unrouted-Given h = absurd (axum.unrouted-ne_ok v.request (status_of_token _ token h))

    page-Given :
        (q : Parsed Text)
        → axum.query_client v.request ≡ q
        → (with_query crates redb axum assets state
            (λ client d. (page crates assets.fund_html state client, d))
            q
            db).0
          ≡ token_json token
        → Given v token
    page-Given (parsed text) e h = absurd (page-ne-token text token h)
    page-Given (rejected resp) e h =
        absurd (axum.query-ne_ok v.request resp e (status_of_token _ token h))

    poll-Given :
        Polls v
        → (q : Parsed Text) → axum.query_client v.request ≡ q
        → (with_query crates redb axum assets state (get crates redb v.time) q db).0
          ≡ token_json token
        → Given v token
    poll-Given to (parsed text) e h = get-Given to text e h
    poll-Given to (rejected resp) e h =
        absurd (axum.query-ne_ok v.request resp e (status_of_token _ token h))

    module _ (c : IsConsistent crates redb state) (now : now_unix v.time < u64_max)
        (ttl : 0 < state.issuer.ttl_secs) where
      fund-Given :
          Funds v
          → (b : Parsed FundRequest) → axum.fund_body v.request ≡ b
          → (with_body crates redb axum assets state
              (submit crates redb (at crates redb axum assets state v) v.time)
              b
              db).0
            ≡ token_json token
          → Given v token
      fund-Given to (parsed req) e h = submit-Given c now ttl to req e h
      fund-Given to (rejected resp) e h =
          absurd (axum.body-ne_ok v.request resp e (status_of_token _ token h))

      handle-Given :
          (r : Option Route) (method : Method)
          → route_of (axum.path v.request) ≡ r
          → axum.method v.request ≡ method
          → (handle crates redb axum assets state v r method db).0 ≡ token_json token
          → Given v token
      unfolding healthz sh ps1 token_json
      handle-Given (some healthz_route) get_method to m h = absurd (cc)
      handle-Given (some sh_route) get_method to m h = absurd (cc)
      handle-Given (some ps1_route) get_method to m h = absurd (cc)
      handle-Given (some fund_route) get_method to m h =
          page-Given (axum.query_client v.request) refl h
      handle-Given (some fund_route) post_method to m h =
          fund-Given (m, path_of_fund _ to) (axum.fund_body v.request) refl h
      handle-Given (some capability_route) get_method to m h =
          poll-Given (m, path_of_capability _ to) (axum.query_client v.request) refl h
      handle-Given (some healthz_route) post_method to m h = unrouted-Given h
      handle-Given (some healthz_route) other_method to m h = unrouted-Given h
      handle-Given (some sh_route) post_method to m h = unrouted-Given h
      handle-Given (some sh_route) other_method to m h = unrouted-Given h
      handle-Given (some ps1_route) post_method to m h = unrouted-Given h
      handle-Given (some ps1_route) other_method to m h = unrouted-Given h
      handle-Given (some fund_route) other_method to m h = unrouted-Given h
      handle-Given (some capability_route) post_method to m h = unrouted-Given h
      handle-Given (some capability_route) other_method to m h = unrouted-Given h
      handle-Given none get_method to m h = unrouted-Given h
      handle-Given none post_method to m h = unrouted-Given h
      handle-Given none other_method to m h = unrouted-Given h

  -- One request, from a store that is a ledger.
  pub serve_one-Given :
      IsConsistent crates redb state
      → 0 < state.issuer.ttl_secs
      → (v : Visit Req) (token : Text) (db : Db) → now_unix v.time < u64_max
      → IsLedger crates redb state db
      → (serve crates redb axum assets state v db).0 ≡ token_json token
      → Given v token
  unfolding serve
  serve_one-Given c ttl v token db now l h =
      handle-Given v db token l c now ttl (route_of (axum.path v.request)) (axum.method v.request)
        refl refl h

  -- After any history of requests from a store that is a ledger, with a consistent configuration,
  -- a lifetime of more than 0 seconds and clocks before the last 64-bit second, a request that the
  -- server answers with a token is a `GET /capability`, or a `POST /fund` whose captcha the
  -- verifier passed, it names an address, and the token is that of a record that the issuer signed
  -- for this address and that has not expired.
  pub serve-Given :
      IsConsistent crates redb state
      → 0 < state.issuer.ttl_secs
      → (history : List (Visit Req)) (v : Visit Req) (token : Text) (db : Db)
      → All (λ (u : Visit Req). now_unix u.time < u64_max) history
      → now_unix v.time < u64_max
      → IsLedger crates redb state db
      → (serve crates redb axum assets state v
          (serve_all crates redb axum assets state history db).1).0
        ≡ token_json token
      → Given v token
  serve-Given c ttl history v token db times now l h =
      serve_one-Given c ttl v token (serve_all crates redb axum assets state history db).1 now
        (serve_all-IsLedger crates redb axum assets state c history db times l) h
