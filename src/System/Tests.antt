-- ===== src/System/Tests.antt =====
-- The wrapper run against the server: the captcha is solved between two of its requests.
use sponsor.Common.{◌≡◌, refl, Bool, true, none, some, List, [], ◌∷◌, All, arith}
use sponsor.Common.Result.{ok}
use sponsor.Common.Action.{Action, Ends}
use sponsor.Common.Text.{Text, lit, bytes, text_eq}
use sponsor.Common.Text.Trim.{trim, trim_start, is_whitespace}
use sponsor.Crates.{is_ascii_hexdigit}
use sponsor.Common.Text.Split.{strip_prefix}
use sponsor.Samples.{sample_crates}
use sponsor.Samples.Memory.{memory}
use sponsor.Server.Http.{since_epoch, now_unix, parsed, rejected}
use sponsor.Server.Http.Capability.{get}
use sponsor.Server.Http.Router.{get_method, post_method, serve, serve_all, route_of}
use sponsor.Server.Tests.Http.{fake_state, req, empty_db, consistent, empty-IsLedger, run, codec}
use sponsor.Server.Tests.Router.{Sent, sample_axum, assets, turned_down, visit}
use sponsor.Wrapper.Session.Pairing.{IsPaired-of_none}
use sponsor.Wrapper.Session.Reads.{session_of}
use sponsor.Wrapper.Files.{
  exists, write_all, open_truncated, create_dir, set_permissions, remove_dir_all,
}
use sponsor.Wrapper.Keystore.{starts_with}
use sponsor.Wrapper.Session.{normalize_hash, to_ascii_lowercase, without_tag}
use sponsor.Wrapper.Session.State.{
  write_private, ensure_key, create_private_dir, open_session, capability, discard, save_capability,
  fresh_key,
}
use sponsor.Wrapper.Api.{get_capability, poll_capability, poll}
use sponsor.Wrapper.Config.{join}
use sponsor.Wrapper.Browser.{prompt}
use sponsor.Wrapper.Flow.{Machine, pull, acquire, obtain, live_session}
use sponsor.Wrapper.Flow.Finished.{Finished}
use sponsor.Wrapper.Tests.Flow.{hash, identity, cfg, empty_disk}
use sponsor.System.{Wire, Turn, InTime, Node, gateway}
use sponsor.System.Honest.{pull-sponsored}

-- The path of a URL of the gateway.
path_of : Text → Text
unfolding strip_prefix
path_of url = elim (strip_prefix (lit "http://gw") url) [ none ↦ url | some path ↦ path ]

abbrev value_of : List (Text × Text) → Text
value_of [] = []
value_of ((k, v) ∷ rest) = v

abbrev wire : Wire sample_axum (lit "http://gw")
unfolding path_of
wire = record {
  sent = λ url query. record {
    method = get_method;
    path = path_of url;
    query = value_of query;
    body = rejected turned_down;
  };
  sent-method = λ client. refl;
  sent-path = λ client. refl;
  sent-client = λ client. refl;
}

-- Nobody has asked before the first request; the captcha is solved before the second.
abbrev turns : List (Turn Sent)
turns =
    record { others = []; time = since_epoch 1000 0; takes = 5; arrives = true }
    ∷ record {
      others = visit post_method (lit "/fund") (parsed req) 1001 ∷ [];
      time = since_epoch 1002 0;
      takes = 5;
      arrives = true;
    }
    ∷ []

turns-InTime : All InTime turns
unfolding now_unix
turns-InTime = (
  record { before = tt; at = omega arith },
  (record { before = (omega arith, tt); at = omega arith }, tt),
)

abbrev World : Type 0
World = Node sample_crates memory sample_axum assets (fake_state true) consistent

abbrev node : World
node = record {
  db = empty_db;
  clock = 0;
  turns = turns;
  ledger = empty-IsLedger;
  in_time = turns-InTime;
}

abbrev spawn : Text → List Text → Action (Machine World) Bool
spawn bin args m = (ok true, m)

abbrev start : Machine World
start = record { disk = empty_disk; world = node }

pull-sponsored_example :
    Ends
      (λ (u : Unit {0}) m'.
        Finished sample_crates identity
          (gateway sample_crates memory sample_axum assets
            (fake_state true)
            consistent
            cfg.gateway_base
            wire)
          cfg
          spawn
          hash
          (lit ".")
          m')
      (λ (m' : Machine World). Unit {0})
      (pull sample_crates identity
        (gateway sample_crates memory sample_axum assets
          (fake_state true)
          consistent
          cfg.gateway_base
          wire)
        cfg
        spawn
        (ok (1 ∷ []))
        (since_epoch 1000 0)
        hash
        (lit ".")
        start)
pull-sponsored_example =
    pull-sponsored sample_crates memory sample_axum assets (fake_state true) consistent identity cfg
      wire spawn (ok (1 ∷ [])) (since_epoch 1000 0) hash (lit ".") start
      (λ hex normal.
        IsPaired-of_none sample_crates identity (session_of (lit "/d") hex) {d = empty_disk} refl)

-- The pull succeeds.
pulled :
    (pull sample_crates identity
      (gateway sample_crates memory sample_axum assets
        (fake_state true)
        consistent
        cfg.gateway_base
        wire)
      cfg
      spawn
      (ok (1 ∷ []))
      (since_epoch 1000 0)
      hash
      (lit ".")
      start).0
    ≡ ok tt
unfolding wire path_of run codec get serve serve_all route_of pull normalize_hash to_ascii_lowercase
    without_tag trim trim_start is_whitespace strip_prefix bytes is_ascii_hexdigit live_session
    open_session create_private_dir create_dir set_permissions capability exists acquire ensure_key
    fresh_key write_private open_truncated write_all obtain prompt get_capability poll_capability
    poll save_capability discard remove_dir_all text_eq join starts_with
pulled = refl
