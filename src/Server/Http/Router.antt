-- ===== src/Server/Http/Router.antt =====
-- crates/server/src/http/mod.rs: `router`, with its handlers over the shared state.
pub mod Ledger
pub mod Paths
pub mod Tokens
use sponsor.Common.{
  ℕ, Bool, true, false, Option, none, some, List, [], ◌∷◌, ◌≢◌, ◌≡◌, if◌then◌else◌,
}
use sponsor.Common.Text.{Text, lit, text_eq}
use sponsor.Crates.{Crates}
use sponsor.Server.Captcha.{CaptchaVerifier}
use sponsor.Server.Store.Redb.{Redb}
use sponsor.Server.State.{AppState}
use sponsor.Server.Http.{
  Response, StatusCode, ok_200, healthz, SystemTime, Parsed, parsed, rejected,
}
use sponsor.Server.Http.Capability.{get}
use sponsor.Server.Http.Page.{page}
use sponsor.Server.Http.Installer.{sh, ps1}
use sponsor.Server.Http.Fund.{FundRequest, submit}

-- The method, as far as a route tells one from another: whether `get` serves it, or `post`. A HEAD
-- request is served by `get`; axum then drops the body of the answer.
pub data Method : Type 0 where
  get_method post_method other_method : Method

-- What axum makes of a request: its method and path, the field `client` of its query, its JSON
-- body, and the answer where no route fits. An extractor that fails answers by itself. None of
-- axum's own answers has the status 200.
pub record Axum (Req : Type 0) : Type 0 where
  pub method : Req → Method
  pub path : Req → Text
  pub query_client : Req → Parsed Text
  pub fund_body : Req → Parsed FundRequest
  pub unrouted : Req → Response
  pub unrouted-ne_ok : (r : Req) → (unrouted r).status ≢ ok_200
  pub query-ne_ok :
      (r : Req) (resp : Response) → query_client r ≡ rejected resp → resp.status ≢ ok_200
  pub body-ne_ok : (r : Req) (resp : Response) → fund_body r ≡ rejected resp → resp.status ≢ ok_200

-- The routes.
pub data Route : Type 0 where
  healthz_route sh_route ps1_route fund_route capability_route : Route

unfoldable pub route_of : Text → Option Route
unfolding text_eq
route_of path =
    if text_eq path (lit "/healthz")
    then some healthz_route
    else if text_eq path (lit "/decdn.sh")
    then some sh_route
    else if text_eq path (lit "/decdn.ps1")
    then some ps1_route
    else if text_eq path (lit "/fund")
    then some fund_route
    else if text_eq path (lit "/capability")
    then some capability_route
    else none

-- A request, with the time at which it is handled and what the verifier says to it.
pub record Visit (Req : Type 0) : Type 0 where
  pub request : Req
  pub time : SystemTime
  pub verifier : CaptchaVerifier

-- The assets.
pub record Assets : Type 0 where
  pub fund_html : Text
  pub decdn_sh : Text
  pub decdn_ps1 : Text

module _ (crates : Crates) (redb : Redb crates.Address crates.address_discrete) {Chain Req : Type 0}
    (axum : Axum Req) (assets : Assets) (state : AppState crates Chain) where
  open redb use {Db}

  -- The state, with the verifier that this request meets.
  abbrev pub at : Visit Req → AppState crates Chain
  at v = record {
    treasury = state.treasury;
    issuer = state.issuer;
    turnstile = v.verifier;
    cfg = state.cfg;
  }

  abbrev pub with_query : (Text → Db → Response × Db) → Parsed Text → Db → Response × Db
  with_query handler (parsed client) db = handler client db
  with_query handler (rejected resp) db = (resp, db)

  abbrev pub with_body :
      (FundRequest → Db → Response × Db) → Parsed FundRequest → Db → Response × Db
  with_body handler (parsed req) db = handler req db
  with_body handler (rejected resp) db = (resp, db)

  abbrev pub handle : Visit Req → Option Route → Method → Db → Response × Db
  handle v (some healthz_route) get_method db = (healthz, db)
  handle v (some sh_route) get_method db = (sh crates state assets.decdn_sh, db)
  handle v (some ps1_route) get_method db = (ps1 crates state assets.decdn_ps1, db)
  handle v (some fund_route) get_method db =
      with_query (λ client d. (page crates assets.fund_html state client, d))
        (axum.query_client v.request) db
  handle v (some fund_route) post_method db =
      with_body (submit crates redb (at v) v.time) (axum.fund_body v.request) db
  handle v (some capability_route) get_method db =
      with_query (get crates redb v.time) (axum.query_client v.request) db
  handle v _ _ db = (axum.unrouted v.request, db)

  -- One request.
  unfoldable pub serve : Visit Req → Db → Response × Db
  unfolding route_of
  serve v db = handle v (route_of (axum.path v.request)) (axum.method v.request) db

  -- One request after the other, with the answers in order.
  unfoldable pub serve_all : List (Visit Req) → Db → List Response × Db
  unfolding serve
  serve_all [] db = ([], db)
  serve_all (v ∷ vs) db =
      let (resp, db') = serve v db in let (rest, db'') = serve_all vs db' in (resp ∷ rest, db'')
