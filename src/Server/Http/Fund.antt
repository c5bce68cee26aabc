-- ===== src/Server/Http/Fund.antt =====
-- crates/server/src/http/fund.rs: `submit`, which issues a capability after the captcha.
pub mod Outcome
pub mod Ledger
pub mod Answers
pub mod Again
use sponsor.Common.{ℕ, Bool, true, false, Option, none, some, ltb, if◌then◌else◌}
use sponsor.Common.Result.{Result, ok, err}
use sponsor.Common.Text.{Text}
use sponsor.Crates.{Crates}
use sponsor.Server.Store.{GrantRecord}
use sponsor.Server.Store.Redb.{Redb}
use sponsor.Server.Store.Table.{get_grant, put_grant}
use sponsor.Server.Issuer.{issue}
use sponsor.Server.State.{AppState}
use sponsor.Server.Http.{
  Response, forbidden, internal_server_error, err_json, token_json, SystemTime, now_unix, parsed,
  rejected, parse_client,
}

pub record FundRequest : Type 0 where
  pub client : Text
  pub turnstile_token : Text

abbrev pub internal : Response
internal = err_json internal_server_error "internal"

module _ (crates : Crates) (redb : Redb crates.Address crates.address_discrete) {Chain : Type 0}
    (state : AppState crates Chain) where
  open crates use {Address}
  open redb use {Db}

  -- `if put_grant(…).is_err() { … }` and the answer with the new token
  abbrev pub stored : Text → Result (Unit {0}) → Response
  stored token (ok u) = token_json token
  stored token (err e) = internal

  -- The record of a token that was just issued.
  abbrev pub record_of : Text → ℕ → ℕ → GrantRecord
  record_of token expiry now = record {
    spending_cap = state.cfg.capability_cap.micros;
    expiry = expiry;
    issued_unix = now;
    token = token;
  }

  -- From the issued token on.
  abbrev pub save : Address → ℕ → Result (Text × ℕ) → Db → Response × Db
  save client now (err e) db = (internal, db)
  save client now (ok (token, expiry)) db =
      let (saved, db') = put_grant crates redb client (record_of token expiry now) db in
      (stored token saved, db')

  -- From the lookup of the client's grant on.
  abbrev pub reuse_or_issue : Address → ℕ → Result (Option GrantRecord) → Db → Response × Db
  reuse_or_issue client now (ok (some rec)) db =
      if ltb now rec.expiry
      then (token_json rec.token, db)
      else save client now (issue crates state.issuer client now) db
  reuse_or_issue client now (ok none) db = save client now (issue crates state.issuer client now) db
  reuse_or_issue client now (err e) db = (internal, db)

  -- What follows the captcha: the part of `submit` that reads and writes the store.
  unfoldable pub grant : Address → ℕ → Db → Response × Db
  grant client now db =
      let (found, db') = get_grant crates redb client db in reuse_or_issue client now found db'

  abbrev pub after_captcha : Address → ℕ → Result Bool → Db → Response × Db
  after_captcha client now (ok true) db = grant client now db
  after_captcha client now (ok false) db = (err_json forbidden "captcha_failed", db)
  after_captcha client now (err e) db = (internal, db)

  -- submit
  unfoldable pub submit : SystemTime → FundRequest → Db → Response × Db
  submit time req db = elim (parse_client crates req.client) [
    | rejected resp ↦ (resp, db)
    | parsed client ↦
        after_captcha client (now_unix time) (state.turnstile.verify req.turnstile_token none) db
  ]
