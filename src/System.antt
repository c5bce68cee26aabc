-- ===== src/System.antt =====
-- crates/wrapper and crates/server together: the wrapper's HTTP client, with the server behind it.
pub mod Honest
mod Tests
use sponsor.Common.{
  ℕ, ◌+◌, ◌≤◌, ◌<◌, ◌≡◌, Bool, true, List, [], ◌∷◌, ◌++◌, All, arith, if◌then◌else◌,
}
use sponsor.Common.Result.{Result, ok, err}
use sponsor.Common.Words.{u64_max}
use sponsor.Common.Text.{Text, lit}
use sponsor.Crates.{Crates}
use sponsor.Server.Store.Redb.{Redb}
use sponsor.Server.State.{AppState}
use sponsor.Server.Http.{Response, SystemTime, before_epoch, now_unix, parsed}
use sponsor.Server.Http.Fund.Ledger.{IsConsistent, IsLedger}
use sponsor.Server.Http.Router.{Axum, Assets, Visit, get_method, serve, serve_all}
use sponsor.Server.Http.Router.Ledger.{serve-IsLedger, serve_all-IsLedger}
use sponsor.Wrapper.Browser.{unseen}
use sponsor.Wrapper.Api.{Net, Reply}
use sponsor.Wrapper.Api.Contract.{reply_of}

-- What axum makes of a request that reqwest sends: `GET base/capability?client=…` is routed as such.
pub record Wire {Req : Type 0} (axum : Axum Req) (base : Text) : Type 0 where
  pub sent : Text → List (Text × Text) → Req
  pub sent-method :
      (client : Text)
      → axum.method (sent (base ++ lit "/capability") ((lit "client", client) ∷ [])) ≡ get_method
  pub sent-path :
      (client : Text)
      → axum.path (sent (base ++ lit "/capability") ((lit "client", client) ∷ []))
        ≡ lit "/capability"
  pub sent-client :
      (client : Text)
      → axum.query_client (sent (base ++ lit "/capability") ((lit "client", client) ∷ []))
        ≡ parsed client

-- What happens between two requests of the wrapper: the requests that the server handles first,
-- what its clock then shows, how long the request takes, and whether its answer arrives.
pub record Turn (Req : Type 0) : Type 0 where
  pub others : List (Visit Req)
  pub time : SystemTime
  pub takes : ℕ
  pub arrives : Bool

abbrev pub idle : {Req : Type 0} → Turn Req
idle = record { others = []; time = before_epoch; takes = 0; arrives = true }

abbrev pub next : {Req : Type 0} → List (Turn Req) → Turn Req
next [] = idle
next (t ∷ ts) = t

abbrev pub rest : {Req : Type 0} → List (Turn Req) → List (Turn Req)
rest [] = []
rest (t ∷ ts) = ts

-- The server's clock is before the last 64-bit second.
pub record InTime {Req : Type 0} (t : Turn Req) : Type 0 where
  pub before : All (λ (v : Visit Req). now_unix v.time < u64_max) t.others
  pub at : now_unix t.time < u64_max

idle-InTime : {Req : Type 0} → InTime {Req = Req} idle
unfolding now_unix
idle-InTime = record { before = tt; at = omega arith }

pub next-InTime : {Req : Type 0} (ts : List (Turn Req)) → All InTime ts → InTime (next ts)
next-InTime [] h = idle-InTime
next-InTime (t ∷ ts) h = h.0

pub rest-InTime : {Req : Type 0} (ts : List (Turn Req)) → All InTime ts → All InTime (rest ts)
rest-InTime [] h = tt
rest-InTime (t ∷ ts) h = h.1

pub le_of_lt : (m n : ℕ) → m < n → m ≤ n
le_of_lt m n h = omega arith

pub le_add : (m n : ℕ) → m ≤ m + n
le_add m n = omega arith

pub le_self : (m : ℕ) → m ≤ m
le_self m = omega arith

module _ (crates : Crates) (redb : Redb crates.Address crates.address_discrete) {Chain Req : Type 0}
    (axum : Axum Req) (assets : Assets) (state : AppState crates Chain)
    (c : IsConsistent crates redb state) where
  open redb use {Db}

  -- The server's store, which is a ledger, the wrapper's clock, and what is still to happen.
  pub record Node : Type 0 where
    pub db : Db
    pub clock : ℕ
    pub turns : List (Turn Req)
    pub ledger : IsLedger crates redb state db
    pub in_time : All InTime turns

  module _ (base : Text) (wire : Wire axum base) where
    -- The server's store when the request comes in.
    abbrev pub found_db : Node → Db
    found_db node = (serve_all crates redb axum assets state (next node.turns).others node.db).1

    abbrev pub visit_of : Text → List (Text × Text) → Node → Visit Req
    visit_of url query node = record {
      request = wire.sent url query;
      time = (next node.turns).time;
      verifier = state.turnstile;
    }

    abbrev pub response : Text → List (Text × Text) → Node → Response × Db
    response url query node =
        serve crates redb axum assets state (visit_of url query node) (found_db node)

    pub found_db-IsLedger : (node : Node) → IsLedger crates redb state (found_db node)
    found_db-IsLedger node =
        serve_all-IsLedger crates redb axum assets state c (next node.turns).others node.db
          (next-InTime node.turns node.in_time).before node.ledger

    -- A request of the wrapper.
    abbrev pub exchange : Text → List (Text × Text) → Node → Result Reply × Node
    exchange url query node = (
      if (next node.turns).arrives
          then ok (reply_of (response url query node).0)
          else err "error sending request",
      record {
        db = (response url query node).1;
        clock = node.clock + (next node.turns).takes;
        turns = rest node.turns;
        ledger =
            serve-IsLedger crates redb axum assets state (visit_of url query node) c
              (le_of_lt _ _ (next-InTime node.turns node.in_time).at) (found_db node)
              (found_db-IsLedger node);
        in_time = rest-InTime node.turns node.in_time;
      },
    )

    -- The gateway, for the wrapper; a sleep lasts as long as was asked for.
    abbrev pub gateway : Net Node
    gateway = record {
      fetch = exchange;
      instant = λ node. node.clock;
      sleep = λ d node. record {
        db = node.db;
        clock = node.clock + d;
        turns = node.turns;
        ledger = node.ledger;
        in_time = node.in_time;
      };
      console = unseen;
      fetch-later = λ url query node. le_add node.clock _;
      sleep-later = λ d node. le_self _;
    }
