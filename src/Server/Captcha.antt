-- ===== src/Server/Captcha.antt =====
-- crates/server/src/captcha.rs: the trait `CaptchaVerifier`, and `Turnstile` over HTTP.
pub mod Verdict
use sponsor.Common.{ℕ, Bool, List, [], ◌∷◌, ◌++◌, Option, none, some, leb, ◌&&◌, if◌then◌else◌}
use sponsor.Common.Result.{Result, ok, err, ◌>>=◌}
use sponsor.Common.Text.{Text, lit}

-- An answer to a request: its status, and the field `success` if its body has the shape of
-- `SiteVerify`.
pub record SiteAnswer : Type 0 where
  pub status : ℕ
  pub success : Option Bool

-- reqwest's `post(endpoint).form(form).send()`
abbrev pub Post : Type 0
Post = Text → List (Text × Text) → Result SiteAnswer

-- The trait `CaptchaVerifier`. One call may answer otherwise than another: `verify` is the call at
-- hand, and `answered_by` is what it says by what its HTTP client is answered.
pub record CaptchaVerifier : Type 0 where
  pub verify : Text → Option Text → Result Bool
  pub answered_by : Post → Text → Option Text → Result Bool

-- A verifier at a call at which its HTTP client is answered so.
abbrev pub meeting : Post → CaptchaVerifier → CaptchaVerifier
meeting site v = record { verify = v.answered_by site; answered_by = v.answered_by }

pub record Turnstile : Type 0 where
  pub secret : Text
  pub http : Post
  pub endpoint : Text

-- Turnstile::with_endpoint
unfoldable pub with_endpoint : Text → Post → Text → Turnstile
with_endpoint secret http endpoint = record { secret = secret; http = http; endpoint = endpoint }

-- Turnstile::new
unfoldable pub new_turnstile : Text → Post → Turnstile
new_turnstile secret http = record {
  secret = secret;
  http = http;
  endpoint = lit "https://challenges.cloudflare.com/turnstile/v0/siteverify";
}

-- `error_for_status`: an error for 4xx and 5xx.
unfoldable pub error_for_status : SiteAnswer → Result SiteAnswer
error_for_status a = if leb 400 a.status && leb a.status 599 then err "HTTP status error" else ok a

abbrev pub remote_field : Option Text → List (Text × Text)
remote_field none = []
remote_field (some ip) = (lit "remoteip", ip) ∷ []

abbrev pub json_success : SiteAnswer → Result Bool
json_success a = elim a.success [ none ↦ err "error decoding response body" | some b ↦ ok b ]

-- Turnstile::verify
unfoldable pub verify : Turnstile → Text → Option Text → Result Bool
unfolding error_for_status
verify t token remote_ip = do
  let form = ((lit "secret", t.secret) ∷ (lit "response", token) ∷ []) ++ remote_field remote_ip
  sent ← t.http t.endpoint form
  resp ← error_for_status sent
  json_success resp

-- `impl CaptchaVerifier for Turnstile`
abbrev pub as_verifier : Turnstile → CaptchaVerifier
as_verifier t = record {
  verify = verify t;
  answered_by = λ site. verify (record t { http = site });
}
