-- ===== src/Wrapper/Flow/Gateway.antt =====
-- What the gateway's answers have to be for the pull to be right, and what is obtained then.
use sponsor.Common.{ℕ, ◌≡◌, ap, subst, Option, none, some}
use sponsor.Common.Result.{Result, ok, err}
use sponsor.Common.Action.{Ends, Ends-then, Ends-cases}
use sponsor.Common.Text.{Text, IsText}
use sponsor.Common.Text.Trim.{trim}
use sponsor.Crates.{Crates}
use sponsor.Wrapper.Session.Identity.{Identity}
use sponsor.Wrapper.Api.{Net, CapabilityInfo, get_capability, poll_capability}
use sponsor.Wrapper.Api.Poll.{Polled, found, refused, timed_out, poll_capability-Polled}
use sponsor.Wrapper.Config.{WrapperConfig}
use sponsor.Wrapper.Flow.{settled, prompted, or_poll, obtain, capability_poll_timeout}

module _ (crates : Crates) (identity : Identity crates) {World : Type 0} (net : Net World)
    (cfg : WrapperConfig crates) where
  open crates use {Address, Grant, from_token, grants}

  -- A token that decodes to a capability for this client.
  pub record IsFor (client : Address) (token : Text) : Type 0 where
    pub text : IsText token
    pub grant : Grant
    pub says : from_token (trim token) ≡ ok grant
    pub signer : (grants grant).signer ≡ client

  -- A gateway that answers a client with tokens for this client only.
  pub record IsHonest : Type 0 where
    pub answers :
        (client : Address) (w w' : World) (info : CapabilityInfo)
        → get_capability crates net cfg.gateway_base client w ≡ (ok (some info), w')
        → IsFor client info.token

  abbrev pub Given : Address → CapabilityInfo → World → Type 0
  Given client info w = IsFor client info.token

  settled-Given :
      IsHonest
      → (client : Address) (deadline : ℕ) (x : Option (Result CapabilityInfo) × World)
        (r : Result CapabilityInfo)
      → x.0 ≡ some r
      → Polled crates net cfg.gateway_base client deadline r x.1
      → Ends (Given client) (λ w. Unit {0}) (settled x)
  settled-Given honest client deadline (some (ok info), w) r q (found w0 i asked e) =
      subst (IsFor client) (ap CapabilityInfo.token (cc (q, e)))
        (honest.answers client w0 w i asked)
  settled-Given honest client deadline (some (ok info), w) r q (refused w0 x asked e) =
      absurd (cc (q, e))
  settled-Given honest client deadline (some (ok info), w) r q (timed_out w0 asked late e) =
      absurd (cc (q, e))
  settled-Given honest client deadline (some (err x), w) r q p = tt
  settled-Given honest client deadline (none, w) r q p = tt

  or_poll-Given :
      IsHonest
      → (client : Address) (o : Option CapabilityInfo) (w w' : World)
      → get_capability crates net cfg.gateway_base client w ≡ (ok o, w')
      → Ends (Given client) (λ w. Unit {0}) (or_poll crates identity net cfg client o w')
  or_poll-Given honest client (some info) w w' q = honest.answers client w w' info q
  or_poll-Given honest client none w w' q =
      let (r, ended, p) =
        poll_capability-Polled crates net cfg.gateway_base client capability_poll_timeout
          (prompted crates identity net cfg client w') in
      settled-Given honest client _
        (poll_capability crates net cfg.gateway_base client capability_poll_timeout
          (prompted crates identity net cfg client w'))
        r ended p

  pub obtain-Given :
      IsHonest
      → (client : Address) (w : World)
      → Ends (Given client) (λ w'. Unit {0}) (obtain crates identity net cfg client w)
  unfolding obtain
  obtain-Given honest client w =
      let x = get_capability crates net cfg.gateway_base client w in
      Ends-then (λ o w'. x ≡ (ok o, w')) (Given client) (λ w'. Unit {0})
        (get_capability crates net cfg.gateway_base client) (or_poll crates identity net cfg client)
        w
        (Ends-cases (λ o w'. x ≡ (ok o, w')) (λ w'. Unit {0}) x.0 x.1
          (λ o q. ap (λ (r : Result (Option CapabilityInfo)). (r, x.1)) q) (λ e q. tt))
        (λ o w' q. or_poll-Given honest client o w w' q)
