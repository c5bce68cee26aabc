-- ===== src/Server/Tests/Main.antt =====
-- The server started on sample variables, asked to fund and then polled.
use sponsor.Common.{ℕ, ◌≡◌, ◌<◌, refl, true, List, [], ◌∷◌, some, All, arith}
use sponsor.Common.Result.{ok}
use sponsor.Common.Words.{u64_max}
use sponsor.Common.Text.{Text, lit, text_eq, bytes}
use sponsor.Common.Text.Split.{strip_prefix, split_once, split}
use sponsor.Common.Text.Number.{parse_u64}
use sponsor.Samples.{sample_crates}
use sponsor.Samples.Memory.{memory}
use sponsor.Server.Captcha.{Post, new_turnstile, error_for_status}
use sponsor.Server.Captcha
use sponsor.Server.Config.{
  ServerConfig, from_env, env_var, env_u64, env_or, pin_from_env, load_treasury_signer,
}
use sponsor.Server.Release.{new_pin, is_release_tag}
use sponsor.Server.Issuer.{new_issuer, owner_address}
use sponsor.Server.Treasury.{pool_owner, connect}
use sponsor.Server.Store.Table.{open_store, create_table}
use sponsor.Server.State.{build, build_treasury}
use sponsor.Server.Http.{token_json, now_unix, since_epoch, parsed}
use sponsor.Server.Http.Capability.{get}
use sponsor.Server.Http.Fund.Ledger.{IsLedger}
use sponsor.Server.Http.Router.{Method, get_method, post_method, route_of, serve}
use sponsor.Server.Http.Router.Tokens.{Given}
use sponsor.Server.Main.{Arrival, Server, start, Event, request_in, tick_due, on_event, on_events}
use sponsor.Server.Main.Serving.{asking, InTime, start-Given}
use sponsor.Server.Tests.Http.{client, req, run, codec, no_rows}
use sponsor.Server.Tests.Boot.{Chain, load, no_post, variables, host, find}
use sponsor.Server.Tests.Boot
use sponsor.Server.Tests.Router.{Sent, sample_axum, assets}

abbrev booted :
    (s : Server sample_crates memory Chain) × ((start sample_crates memory Chain Boot.client load
        no_post
        (λ bind. ok tt)
        variables
        host).0
      ≡ ok s)
unfolding start from_env env_var env_u64 env_or pin_from_env new_pin is_release_tag strip_prefix
    split_once split bytes parse_u64 text_eq find build build_treasury load_treasury_signer connect
    open_store create_table new_issuer pool_owner owner_address run
booted = (_, refl)

started-IsLedger : IsLedger sample_crates memory booted.0.state booted.0.store
unfolding booted
started-IsLedger = record { row = λ j raw e. absurd (no_rows j raw e) }

-- The captcha site says yes.
abbrev site : Post
site url form = ok (record { status = 200; success = some true })

abbrev arrival : Method → Text → ℕ → Arrival Sent
arrival method path time = record {
  request = record { method = method; path = path; query = client; body = parsed req };
  time = since_epoch time 0;
  site = site;
}

abbrev events : List (Event sample_crates memory Chain Sent)
events =
    tick_due (λ c. c) ∷ request_in (arrival post_method (lit "/fund") 1000) ∷ tick_due (λ c. c) ∷ []

abbrev poll : Arrival Sent
poll = arrival get_method (lit "/capability") 2000

in_time : All (InTime sample_crates memory Chain sample_axum assets booted.0) events
unfolding now_unix
in_time = (tt, (omega arith, (tt, tt)))

now : now_unix poll.time < u64_max
unfolding now_unix
now = omega arith

lasting : 0 < booted.0.state.issuer.ttl_secs
unfolding booted
lasting = omega arith

abbrev token : Text
token =
    sample_crates.to_token
      (record { signer = true; spending_cap = 5_000_000; pool_id = true; expiry = 4600 }, true)

given :
    (on_event sample_crates memory Chain sample_axum assets booted.0 (request_in poll) (
      on_events sample_crates memory Chain sample_axum assets booted.0 events
        (record { db = booted.0.store; chain = Boot.chain }))).0
    ≡ some (token_json token)
unfolding booted run codec get serve route_of on_event on_events Captcha.verify error_for_status
    new_turnstile
given = refl

start-Given_example :
    (c : ServerConfig sample_crates) × (from_env sample_crates variables ≡ ok c)
    × Given sample_crates memory sample_axum assets booted.0.state
        (asking sample_crates memory Chain c poll)
        token
start-Given_example =
    start-Given sample_crates memory Chain Boot.client load no_post (λ bind. ok tt) variables host
      sample_axum assets booted.0 events poll token Boot.chain booted.1 started-IsLedger lasting
      in_time now given
