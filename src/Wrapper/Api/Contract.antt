-- ===== src/Wrapper/Api/Contract.antt =====
-- The gateway's answer to GET /capability, as the wrapper reads it.
use sponsor.Common.{ℕ, ◌≡◌, refl, Option, none, some, if◌then◌else◌, ltb, arith}
use sponsor.Common.Result.{Result, ok, err}
use sponsor.Common.Text.{Text, lit, text_eq}
use sponsor.Crates.{Crates}
use sponsor.Server.Store.{GrantRecord}
use sponsor.Server.Store.Redb.{Redb}
use sponsor.Server.Store.Table.{get_grant}
use sponsor.Server.Http.{
  StatusCode, ok_200, no_content, bad_request, forbidden, internal_server_error, str, Body, json,
  Response, SystemTime, now_unix, token_json, parse_client, err_json, no_content_response,
}
use sponsor.Server.Http.Capability.{get, answer}
use sponsor.Wrapper.Api.{Reply, CapabilityInfo, info_of}

abbrev code_of : StatusCode → ℕ
code_of ok_200 = 200
code_of no_content = 204
code_of bad_request = 400
code_of forbidden = 403
code_of internal_server_error = 500

-- serde reads a CapabilityInfo from an object whose field `token` is a string.
abbrev token_of : Body → Option Text
token_of (json key (str t)) = if text_eq (lit key) (lit "token") then some t else none
token_of _ = none

abbrev pub reply_of : Response → Reply
reply_of resp = record { status = code_of resp.status; token = token_of resp.body }

-- What the wrapper is meant to learn of a client for whom the store holds this.
abbrev pub learned : ℕ → Result (Option GrantRecord) → Result (Option CapabilityInfo)
learned now (ok (some rec)) =
    if ltb now rec.expiry then ok (some (record { token = rec.token })) else ok none
learned now (ok none) = ok none
learned now (err e) = err "GET /capability failed"

answer_read :
    (now : ℕ) (o : Result (Option GrantRecord)) → info_of (reply_of (answer now o)) ≡ learned now o
unfolding answer token_json err_json no_content_response text_eq
answer_read now (ok (some rec)) = ground arith
answer_read now (ok none) = refl
answer_read now (err e) = refl

module _ (crates : Crates) (redb : Redb crates.Address crates.address_discrete) where
  open crates use {Address, show_address}
  open redb use {Db}

  -- What the wrapper makes of the answer that `GET /capability` gives for its printed address is:
  -- the token of the stored record while this has not expired, nothing yet where there is no
  -- record or it has expired, and an error where the store cannot be read.
  pub get-learned :
      (time : SystemTime) (client : Address) (db : Db)
      → info_of (reply_of (get crates redb time (show_address client) db).0)
        ≡ learned (now_unix time) (get_grant crates redb client db).0
  unfolding get parse_client
  get-learned time client db =
      rw (crates.parse-show client, get)
        (answer_read (now_unix time) (get_grant crates redb client db).0)
