-- ===== src/Server/Http/Interleaved.antt =====
-- crates/server/src/http/fund.rs: `submit` as it runs beside itself. The captcha verifier is
-- awaited, and the store reads and writes in transactions, so that other requests run before the
-- verdict, between the lookup and the write, and after it.
pub mod Alone
pub mod Steps
pub mod Parts
pub mod Served
use sponsor.Common.{
  ℕ, zero, suc, Bool, true, false, Option, none, some, List, [], ◌∷◌, ltb, if◌then◌else◌,
}
use sponsor.Common.Result.{Result, ok, err}
use sponsor.Crates.{Crates}
use sponsor.Server.Captcha.{CaptchaVerifier}
use sponsor.Server.Store.{GrantRecord}
use sponsor.Server.Store.Redb.{Redb}
use sponsor.Server.Store.Table.{get_grant}
use sponsor.Server.Issuer.{issue}
use sponsor.Server.State.{AppState}
use sponsor.Server.Http.{
  Response, forbidden, err_json, token_json, SystemTime, now_unix, parsed, rejected, parse_client,
}
use sponsor.Server.Http.Fund.{FundRequest, internal, save}

-- A request, with the clock that it reads after the captcha and what the verifier says to it.
pub record Call : Type 0 where
  pub request : FundRequest
  pub time : SystemTime
  pub verifier : CaptchaVerifier

-- Where a request stands: before the captcha, before the lookup, between a lookup that found no
-- live grant and the write, or answered.
pub data Phase (Address : Type 0) : Type 0 where
  received : Phase Address
  verified : Address → Phase Address
  missed : Address → Phase Address
  answered : Response → Phase Address

pub record Task (Address : Type 0) : Type 0 where
  pub call : Call
  pub phase : Phase Address

module _ (crates : Crates) (redb : Redb crates.Address crates.address_discrete) {Chain : Type 0}
    (state : AppState crates Chain) where
  open crates use {Address}
  open redb use {Db}

  abbrev pub checked : Address → Result Bool → Phase Address
  checked client (ok true) = verified client
  checked client (ok false) = answered (err_json forbidden "captcha_failed")
  checked client (err e) = answered internal

  abbrev pub looked_up : Address → ℕ → Result (Option GrantRecord) → Phase Address
  looked_up client now (ok (some rec)) =
      if ltb now rec.expiry then answered (token_json rec.token) else missed client
  looked_up client now (ok none) = missed client
  looked_up client now (err e) = answered internal

  -- From one await or transaction to the next.
  unfoldable pub advance : Call → Phase Address → Db → Phase Address × Db
  advance v received db = elim (parse_client crates v.request.client) [
    | rejected resp ↦ (answered resp, db)
    | parsed client ↦ (checked client (v.verifier.verify v.request.turnstile_token none), db)
  ]
  advance v (verified client) db =
      let (found, db') = get_grant crates redb client db in
      (looked_up client (now_unix v.time) found, db')
  advance v (missed client) db =
      let (resp, db') =
        save crates redb state client (now_unix v.time)
          (issue crates state.issuer client (now_unix v.time)) db in
      (answered resp, db')
  advance v (answered resp) db = (answered resp, db)

  -- The task of this number goes on.
  unfoldable pub step_at : ℕ → List (Task Address) → Db → List (Task Address) × Db
  step_at i [] db = ([], db)
  step_at zero (t ∷ ts) db =
      let (phase, db') = advance t.call t.phase db in
      (record { call = t.call; phase = phase } ∷ ts, db')
  step_at (suc i) (t ∷ ts) db = let (ts', db') = step_at i ts db in (t ∷ ts', db')

  -- The tasks go on in this order.
  unfoldable pub interleave : List ℕ → List (Task Address) → Db → List (Task Address) × Db
  unfolding step_at
  interleave [] ts db = (ts, db)
  interleave (i ∷ order) ts db = let (ts', db') = step_at i ts db in interleave order ts' db'
