-- ===== src/Server/Tests/Router.antt =====
-- The server run on a history of two requests.
use sponsor.Common.{ℕ, ◌≡◌, ◌≢◌, ◌<◌, refl, true, List, [], ◌∷◌, All, arith}
use sponsor.Common.Result.{}
use sponsor.Common.Words.{u64_max}
use sponsor.Common.Text.{Text, lit}
use sponsor.Samples.{sample_crates}
use sponsor.Samples.Memory.{memory}
use sponsor.Server.Http.{
  Response, err_json, bad_request, token_json, ok_200, now_unix, since_epoch, Parsed, parsed,
  rejected,
}
use sponsor.Server.Http.Capability.{get}
use sponsor.Server.Http.Fund.{FundRequest}
use sponsor.Server.Http.Router.{
  Axum, Assets, Visit, Method, get_method, post_method, route_of, serve, serve_all,
}
use sponsor.Server.Http.Router.Tokens.{Given, serve-Given}
use sponsor.Server.Tests.Support.{fake_captcha}
use sponsor.Server.Tests.Http.{
  fake_state, client, req, empty_db, first, run, codec, consistent, empty-IsLedger, lasting,
}

pub record Sent : Type 0 where
  pub method : Method
  pub path : Text
  pub query : Text
  pub body : Parsed FundRequest

abbrev pub turned_down : Response
turned_down = err_json bad_request "bad_request"

pub turned_down-ne_ok : turned_down.status ≡ ok_200 → ⊥
unfolding err_json
turned_down-ne_ok e = cc

-- A body that is not JSON is turned down.
abbrev pub checked : Parsed FundRequest → Parsed FundRequest
checked (parsed b) = parsed b
checked (rejected resp) = rejected turned_down

pub checked-ne_ok :
    (b : Parsed FundRequest) (resp : Response) → checked b ≡ rejected resp → resp.status ≢ ok_200
unfolding err_json
checked-ne_ok (parsed b) resp e h = cc
checked-ne_ok (rejected r) resp e h = ground arith

pub parsed-ne_rejected : (q : Text) (resp : Response) → parsed q ≢ rejected resp
parsed-ne_rejected q resp e = cc

abbrev pub sample_axum : Axum Sent
sample_axum = record {
  method = λ r. r.method;
  path = λ r. r.path;
  query_client = λ r. parsed r.query;
  fund_body = λ r. checked r.body;
  unrouted = λ r. turned_down;
  unrouted-ne_ok = λ r. turned_down-ne_ok;
  query-ne_ok = λ r resp e. absurd (parsed-ne_rejected r.query resp e);
  body-ne_ok = λ r resp e. checked-ne_ok r.body resp e;
}

abbrev pub assets : Assets
assets = record { fund_html = []; decdn_sh = []; decdn_ps1 = [] }

abbrev pub visit : Method → Text → Parsed FundRequest → ℕ → Visit Sent
visit method path body time = record {
  request = record { method = method; path = path; query = client; body = body };
  time = since_epoch time 0;
  verifier = fake_captcha true;
}

abbrev history : List (Visit Sent)
history =
    visit post_method (lit "/fund") (parsed req) 1000
    ∷ visit post_method (lit "/fund") (rejected turned_down) 1500
    ∷ []

abbrev poll : Visit Sent
poll = visit get_method (lit "/capability") (parsed req) 2000

in_time : All (λ (u : Visit Sent). now_unix u.time < u64_max) history
unfolding now_unix
in_time = (omega arith, (omega arith, tt))

now : now_unix poll.time < u64_max
unfolding now_unix
now = omega arith

given :
    (serve sample_crates memory sample_axum assets
      (fake_state true)
      poll
      (serve_all sample_crates memory sample_axum assets (fake_state true) history empty_db).1).0
    ≡ token_json first
unfolding run codec get serve serve_all route_of
given = refl

serve-Given_example : Given sample_crates memory sample_axum assets (fake_state true) poll first
serve-Given_example =
    serve-Given sample_crates memory sample_axum assets (fake_state true) consistent lasting history
      poll first empty_db in_time now empty-IsLedger given
