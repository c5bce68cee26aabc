-- ===== src/Server/Http.antt =====
-- crates/server/src/http/mod.rs: responses, and the helpers that the handlers share.
pub mod Fund
pub mod Capability
pub mod Page
pub mod Installer
pub mod Interleaved
pub mod Router
use sponsor.Common.{ℕ, Bool, true, false, List, Option, none, some, String}
use sponsor.Common.Result.{Result, ok, err}
use sponsor.Common.Text.{Text, lit}
use sponsor.Crates.{Crates}

pub data StatusCode : Type 0 where
  ok_200 no_content bad_request forbidden internal_server_error : StatusCode

pub data Value : Type 0 where
  bool : Bool → Value
  str : Text → Value

-- A body is empty, a JSON object of one field, a page, or a script with its content type.
pub data Body : Type 0 where
  empty : Body
  json : String → Value → Body
  html : Text → Body
  script : String → Text → Body

pub record Response : Type 0 where
  pub status : StatusCode
  pub body : Body

-- err_json
unfoldable pub err_json : StatusCode → String → Response
err_json status code = record { status = status; body = json "error" (str (lit code)) }

-- `Json(json!({ "token": token })).into_response()`
unfoldable pub token_json : Text → Response
token_json token = record { status = ok_200; body = json "token" (str token) }

-- `StatusCode::NO_CONTENT.into_response()`
unfoldable pub no_content_response : Response
no_content_response = record { status = no_content; body = empty }

-- healthz
unfoldable pub healthz : Response
healthz = record { status = ok_200; body = json "ok" (bool true) }

-- `SystemTime::now()`: before the Unix epoch, or so many seconds and nanoseconds past it.
pub data SystemTime : Type 0 where
  before_epoch : SystemTime
  since_epoch : (seconds nanos : ℕ) → SystemTime

-- now_unix
unfoldable pub now_unix : SystemTime → ℕ
now_unix before_epoch = 0
now_unix (since_epoch seconds nanos) = seconds

pub data Parsed (A : Type 0) : Type 0 where
  parsed : A → Parsed A
  rejected : Response → Parsed A

module _ (crates : Crates) where
  open crates use {Address, parse_address}

  -- parse_client
  unfoldable pub parse_client : Text → Parsed Address
  unfolding err_json
  parse_client client = elim (parse_address client) [
    | ok a ↦ parsed a
    | err e ↦ rejected (err_json bad_request "bad_request")
  ]
