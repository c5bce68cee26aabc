-- ===== src/Wrapper/Api.antt =====
-- crates/wrapper/src/api.rs: asking the gateway for a capability, once and until one appears.
pub mod Poll
pub mod Found
pub mod Contract
use sponsor.Common.{
  ℕ, zero, suc, ◌+◌, ◌/◌, ◌≤◌, ◌≡◌, Bool, true, false, Option, none, some, List, [], ◌∷◌, ◌++◌, leb,
  ◌==◌, if◌then◌else◌,
}
use sponsor.Common.Result.{Result, ok, err, ok_or}
use sponsor.Common.Action.{Action, ◌>>=◌, lift}
use sponsor.Common.Text.{Text, lit}
use sponsor.Crates.{Crates}
use sponsor.Wrapper.Browser.{Console}

-- What the gateway answered: the status, and the token of the body where it is such JSON.
pub record Reply : Type 0 where
  pub status : ℕ
  pub token : Option Text

-- The HTTP client and tokio's clock, in nanoseconds, beside the console. A request takes time, a sleep at least as much
-- as was asked for.
pub record Net (World : Type 0) : Type 0 where
  pub fetch : Text → List (Text × Text) → Action World Reply
  pub instant : World → ℕ
  pub sleep : ℕ → World → World
  pub console : Console World
  pub fetch-later :
      (url : Text) (query : List (Text × Text)) (w : World)
      → instant w ≤ instant (fetch url query w).1
  pub sleep-later : (d : ℕ) (w : World) → instant w + d ≤ instant (sleep d w)

pub record CapabilityInfo : Type 0 where
  pub token : Text

-- What get_capability makes of a reply.
abbrev pub info_of : Reply → Result (Option CapabilityInfo)
info_of reply =
    if reply.status == 204
    then ok none
    else if reply.status == 200
    then elim reply.token [
      | some token ↦ ok (some (record { token = token }))
      | none ↦ err "error decoding response body"
    ]
    else err "GET /capability failed"

-- `const BACKOFF: Duration = Duration::from_secs(2)`
abbrev pub backoff : ℕ
backoff = 2_000_000_000

module _ (crates : Crates) {World : Type 0} (net : Net World) (base : Text) where
  open crates use {Address, show_address}
  open net use {fetch, instant, sleep}

  -- Api::get_capability
  unfoldable pub get_capability : Address → Action World (Option CapabilityInfo)
  get_capability client = do
    reply ← fetch (base ++ lit "/capability") ((lit "client", show_address client) ∷ [])
    lift (info_of reply)

  -- Api::fund_url
  unfoldable pub fund_url : Address → Text
  fund_url client = base ++ (lit "/fund?client=" ++ show_address client)

  -- The loop of poll_capability; none is a loop that ran out of its fuel.
  module _ (client : Address) (deadline : ℕ) where
    abbrev pub round :
        (World → Option (Result CapabilityInfo) × World)
        → Result (Option CapabilityInfo)
        → World
        → Option (Result CapabilityInfo) × World
    round again (err e) w = (some (err e), w)
    round again (ok (some info)) w = (some (ok info), w)
    round again (ok none) w =
        if leb deadline (instant w)
        then (some (err "poll_capability: timed out waiting for a capability"), w)
        else again (sleep backoff w)

    unfoldable pub poll : ℕ → World → Option (Result CapabilityInfo) × World
    poll zero w = (none, w)
    poll (suc fuel) w = let (reply, w') = get_capability client w in round (poll fuel) reply w'

  -- Api::poll_capability
  unfoldable pub poll_capability : Address → ℕ → World → Option (Result CapabilityInfo) × World
  unfolding poll
  poll_capability client timeout w =
      poll client (instant w + timeout) (suc (suc (timeout / backoff))) w
