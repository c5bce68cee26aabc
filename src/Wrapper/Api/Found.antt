-- ===== src/Wrapper/Api/Found.antt =====
-- The poll for a capability that the gateway comes to have.
use sponsor.Common.{
  ℕ, zero, suc, ◌+◌, ◌*◌, ◌/◌, ◌≤◌, ◌<◌, ◌≡◌, refl, ◌∙◌, Option, none, some, leb, arith, Bool-cases,
  inl, inr,
}
use sponsor.Common.Result.{Result, ok}
use sponsor.Common.Text.{Text}
use sponsor.Crates.{Crates}
use sponsor.Wrapper.Api.{Net, CapabilityInfo, poll, poll_capability, backoff, round}
use sponsor.Wrapper.Api.Poll.{asked, asked-later}

module _ (crates : Crates) {World : Type 0} (net : Net World) (base : Text)
    (client : crates.Address) where
  open net use {instant, sleep}

  abbrev pub request : World → Result (Option CapabilityInfo) × World
  request = asked crates net base client

  -- The world after so many requests, each with its sleep.
  unfoldable pub after : ℕ → World → World
  after zero w = w
  after (suc k) w = after k (sleep backoff (request w).1)

  -- So many requests find nothing and end before the deadline.
  abbrev pub Waits : ℕ → ℕ → World → Type 0
  Waits deadline zero w = Unit
  Waits deadline (suc k) w =
      ((request w).0 ≡ ok none)
      × (instant (request w).1 < deadline)
      × Waits deadline k (sleep backoff (request w).1)

  -- Waiting takes its time.
  Waits-lt :
      (deadline k : ℕ) (w : World) → Waits deadline (suc k) w → instant w + k * backoff < deadline
  Waits-lt deadline zero w (none_yet, early, rest) =
      omega (arith, asked-later crates net base client w)
  Waits-lt deadline (suc k) w (none_yet, early, rest) = omega (
    arith,
    asked-later crates net base client w,
    net.sleep-later backoff (request w).1,
    Waits-lt deadline k (sleep backoff (request w).1) rest,
  )

  round-waits :
      (deadline : ℕ) (again : World → Option (Result CapabilityInfo) × World)
      (reply : Result (Option CapabilityInfo)) (w : World)
      → reply ≡ ok none
      → instant w < deadline
      → round crates net base client deadline again reply w ≡ again (sleep backoff w)
  round-waits deadline again reply w e early = elim (Bool-cases (leb deadline (instant w))) [
    | inl late ↦ absurd (ground arith)
    | inr on_time ↦ rw (e, on_time) refl
  ]

  poll-found :
      (deadline n k : ℕ) (w : World) (info : CapabilityInfo)
      → k ≤ n
      → Waits deadline k w
      → (request (after k w)).0 ≡ ok (some info)
      → poll crates net base client deadline (suc n) w ≡ (some (ok info), (request (after k w)).1)
  unfolding poll after
  poll-found deadline n zero w info h waits e = rw (e, poll) refl
  poll-found deadline zero (suc k) w info h waits e = absurd (omega arith)
  poll-found deadline (suc n) (suc k) w info h (none_yet, early, rest) e =
      round-waits deadline (poll crates net base client deadline (suc n)) (request w).0
        (request w).1 none_yet early
      ∙ poll-found deadline n k (sleep backoff (request w).1) info (omega arith) rest e

  -- When the first k requests of a poll find nothing and end before its deadline and the next one
  -- finds a capability, the poll, on its own fuel, returns this capability, in the state that this
  -- request left; whatever k is.
  pub poll_capability-found :
      (timeout k : ℕ) (w : World) (info : CapabilityInfo)
      → Waits (instant w + timeout) k w
      → (request (after k w)).0 ≡ ok (some info)
      → poll_capability crates net base client timeout w ≡ (some (ok info), (request (after k w)).1)
  unfolding poll_capability
  poll_capability-found timeout zero w info waits e =
      poll-found (instant w + timeout) (suc (timeout / backoff)) zero w info (omega arith) waits e
  poll_capability-found timeout (suc k) w info waits e =
      let h = Waits-lt (instant w + timeout) k w waits in
      poll-found (instant w + timeout) (suc (timeout / backoff)) (suc k) w info (omega arith) waits
        e
