-- ===== src/Server/Http/Capability.antt =====
-- crates/server/src/http/capability.rs: the poll for an issued token.
use sponsor.Common.{ℕ, Option, none, some, leb, if◌then◌else◌}
use sponsor.Common.Result.{Result, ok, err}
use sponsor.Common.Text.{Text}
use sponsor.Crates.{Crates}
use sponsor.Server.Store.{GrantRecord}
use sponsor.Server.Store.Redb.{Redb}
use sponsor.Server.Store.Table.{get_grant}
use sponsor.Server.Http.{
  Response, internal_server_error, err_json, token_json, no_content_response, SystemTime, now_unix,
  parsed, rejected, parse_client,
}

-- The answer to what the store said of the client.
unfoldable pub answer : ℕ → Result (Option GrantRecord) → Response
answer now (ok (some rec)) =
    if leb rec.expiry now then no_content_response else token_json rec.token
answer now (ok none) = no_content_response
answer now (err e) = err_json internal_server_error "internal"

module _ (crates : Crates) (redb : Redb crates.Address crates.address_discrete) where
  open redb use {Db}

  -- get
  unfoldable pub get : SystemTime → Text → Db → Response × Db
  unfolding answer
  get time client db = elim (parse_client crates client) [
    | rejected resp ↦ (resp, db)
    | parsed a ↦
        let (found, db') = get_grant crates redb a db in (answer (now_unix time) found, db')
  ]
