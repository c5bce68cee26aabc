-- ===== src/Wrapper/Tests/Browser.antt =====
-- A captcha that is solved between two requests: what the user is shown.
use sponsor.Common.{ℕ, ◌+◌, ◌≡◌, refl, true, none, some, List, [], ◌∷◌, ◌++◌, arith}
use sponsor.Common.Result.{Result, ok, err}
use sponsor.Common.Text.{Text, lit}
use sponsor.Samples.{sample_crates}
use sponsor.Wrapper.Api.{Net, Reply, get_capability, poll_capability, poll, fund_url}
use sponsor.Wrapper.Browser.{macos, prompt, open_in_browser, opener}
use sponsor.Wrapper.Flow.{obtain}
use sponsor.Wrapper.Tests.Flow.{identity, cfg}

-- The clock, what the gateway will answer, and the lines that were printed and commands started.
record World : Type 0 where
  time : ℕ
  replies : List Reply
  seen : List Text

abbrev next : List Reply → Result Reply
next [] = err "connection refused"
next (r ∷ rest) = ok r

abbrev later : List Reply → List Reply
later [] = []
later (r ∷ rest) = rest

abbrev see : List Text → World → World
see texts w = record w { seen = w.seen ++ texts }

abbrev net : Net World
net = record {
  fetch =
      λ url query w. (next w.replies, record w { time = w.time + 1; replies = later w.replies });
  instant = λ w. w.time;
  sleep = λ d w. record w { time = w.time + d };
  console = record {
    target = macos;
    is_terminal = true;
    println = λ text. see (text ∷ []);
    spawn = λ program args. see (program ∷ args);
  };
  fetch-later = λ url query w. omega arith;
  sleep-later = λ d w. omega arith;
}

abbrev not_yet : Reply
not_yet = record { status = 204; token = none }

abbrev granted : Reply
granted = record { status = 200; token = some (lit "dcap1:AAAA") }

abbrev link : Text
unfolding fund_url
link = fund_url sample_crates net cfg.gateway_base true

-- The gateway has a capability: nothing is shown.
at_once :
    (obtain sample_crates identity net cfg true
      (record { time = 0; replies = granted ∷ []; seen = [] })).1.seen
    ≡ []
unfolding obtain get_capability
at_once = refl

-- It has none yet: the link is printed once, opened once, and then the wrapper polls.
solved :
    obtain sample_crates identity net cfg true
      (record { time = 0; replies = not_yet ∷ not_yet ∷ granted ∷ []; seen = [] })
    ≡ (
      ok (record { token = lit "dcap1:AAAA" }),
      record {
        time = 2_000_000_003;
        replies = [];
        seen =
            (lit "Solve the captcha to start the download:\n  " ++ link) ∷ lit "open" ∷ link ∷ [];
      },
    )
unfolding obtain get_capability prompt open_in_browser opener poll_capability poll fund_url link
solved = refl
