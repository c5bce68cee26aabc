-- ===== src/Wrapper/Api/Poll.antt =====
-- How the poll for a capability ends.
use sponsor.Common.{
  ℕ, zero, suc, ◌+◌, ◌*◌, ◌/◌, ◌≤◌, ◌≡◌, refl, ◌⊎◌, inl, inr, Option, none, some, leb, leb→le,
  arith, Bool-cases, String,
}
use sponsor.Common.Result.{Result, ok, err}
use sponsor.Common.Action.{lift, resume}
use sponsor.Common.Text.{Text}
use sponsor.Crates.{Crates}
use sponsor.Wrapper.Api.{
  Net, CapabilityInfo, get_capability, poll, poll_capability, backoff, info_of, round, Reply,
}

module _ (crates : Crates) {World : Type 0} (net : Net World) (base : Text)
    (client : crates.Address) where
  open net use {fetch, instant, sleep}

  lifted-state : (r : Result Reply) (w : World) → (resume (λ reply. lift (info_of reply)) r w).1 ≡ w
  lifted-state (ok reply) w = refl
  lifted-state (err e) w = refl

  abbrev pub asked : World → Result (Option CapabilityInfo) × World
  asked = get_capability crates net base client

  pub asked-later : (w : World) → instant w ≤ instant (asked w).1
  unfolding get_capability
  asked-later w = rw (lifted-state _ _) (net.fetch-later _ _ w)

  -- How a poll that began in one state of the world ends: in a state that a request left, with
  -- what that request said, or past the deadline after a request that found nothing.
  pub data Polled (deadline : ℕ) (r : Result CapabilityInfo) (w' : World) : Type 0 where
    found :
        (w : World) (info : CapabilityInfo)
        → asked w ≡ (ok (some info), w')
        → r ≡ ok info
        → Polled deadline r w'
    refused : (w : World) (e : String) → asked w ≡ (err e, w') → r ≡ err e → Polled deadline r w'
    timed_out :
        (w : World)
        → asked w ≡ (ok none, w')
        → deadline ≤ instant w'
        → r ≡ err "poll_capability: timed out waiting for a capability"
        → Polled deadline r w'

  module _ (deadline : ℕ) where
    abbrev Ended : Option (Result CapabilityInfo) × World → Type 0
    Ended x = (r : Result CapabilityInfo) × (x.0 ≡ some r) × Polled deadline r x.1

    round-Ended :
        (again : World → Option (Result CapabilityInfo) × World)
        (reply : Result (Option CapabilityInfo)) (w w' : World)
        → asked w ≡ (reply, w')
        → (deadline ≤ instant w') ⊎ Ended (again (sleep backoff w'))
        → Ended (round crates net base client deadline again reply w')
    round-Ended again (err e) w w' q h = (err e, refl, refused w e q refl)
    round-Ended again (ok (some info)) w w' q h = (ok info, refl, found w info q refl)
    round-Ended again (ok none) w w' q h = elim (Bool-cases (leb deadline (instant w'))) [
      | inl late ↦ rw (late) (_, refl, timed_out w q (leb→le _ _ late) refl)
      | inr early ↦ rw (early) (elim h [ inl late ↦ absurd (ground arith) | inr ended ↦ ended ])
    ]

    poll-Polled :
        (n : ℕ) (w : World)
        → deadline ≤ instant w + n * backoff
        → Ended (poll crates net base client deadline (suc n) w)
    unfolding poll
    poll-Polled zero w h =
        round-Ended (poll crates net base client deadline zero) (asked w).0 w (asked w).1 refl
          (inl (omega (arith, asked-later w)))
    poll-Polled (suc n) w h =
        let w' = (asked w).1 in
        round-Ended (poll crates net base client deadline (suc n)) (asked w).0 w w' refl (
          inr (
            poll-Polled n (sleep backoff w')
              (omega (arith, asked-later w, net.sleep-later backoff w'))))

  -- Where a request does not set the clock back and a sleep lasts at least as long as was asked
  -- for, the poll for a capability ends within its fuel of `timeout / 2 s + 2` requests, whatever
  -- the gateway answers: with the capability or the error of its last request, or with the time-
  -- out after a last request that found none, past the deadline.
  pub poll_capability-Polled :
      (timeout : ℕ) (w : World)
      → (r : Result CapabilityInfo) × ((poll_capability crates net base client timeout w).0
          ≡ some r)
        × Polled (instant w + timeout) r (poll_capability crates net base client timeout w).1
  unfolding poll_capability
  poll_capability-Polled timeout w =
      poll-Polled (instant w + timeout) (suc (timeout / backoff)) w (omega arith)
