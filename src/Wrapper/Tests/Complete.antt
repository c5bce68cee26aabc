-- ===== src/Wrapper/Tests/Complete.antt =====
-- A first pull on an empty disk.
use sponsor.Common.{
  false, Option, Bool-cases, ◌⊎◌, inl, inr, sym, subst, ◌∙◌, ◌≢◌, ℕ, ◌+◌, none, some, arith, ltb,
  if◌then◌else◌, ◌≡◌, refl, Bool, true, [], ◌∷◌,
}
use sponsor.Common.Result.{Result, ok}
use sponsor.Common.Action.{Ends-then, pure}
use sponsor.Common.Text.{lit, text_eq}
use sponsor.Samples.{sample_crates}
use sponsor.Server.Http.{since_epoch}
use sponsor.Wrapper.Session.State.{write_private}
use sponsor.Wrapper.Session.Reads.{IsClear}
use sponsor.Wrapper.Session.Fresh.{Calm, Generates, write_private-Succeeds}
use sponsor.Wrapper.Config.{WrapperConfig}
use sponsor.Wrapper.Main.{success, main}
use sponsor.Wrapper.Flow.{pull}
use sponsor.Wrapper.Flow.Gateway.{IsHonest, IsFor}
use sponsor.Wrapper.Api.{Net, CapabilityInfo, get_capability}
use sponsor.Wrapper.Api.Found.{after}
use sponsor.Wrapper.Browser.{unseen, open_in_browser}
use sponsor.Wrapper.Flow.Complete.{in_time, IsAbsent, Provides, Runs, main-success}
use sponsor.Wrapper.Tests.Keys.{key_path}
use sponsor.Wrapper.Tests.Flow.{
  hash, identity, cfg, spawn, start, s, empty_disk, hex_true, normal_hash, token_reply, token_for,
  token_for-IsFor, answered,
}

pub empty-IsAbsent : IsAbsent sample_crates identity s empty_disk
empty-IsAbsent = record {
  calm = refl;
  no_dir = refl;
  no_key = refl;
  no_password = refl;
  no_capability = refl;
}

generates : Generates sample_crates identity s (1 ∷ [])
generates d calm gone =
    Ends-then (λ (u : Unit {0}) d'. Calm d') (λ (a : Bool) d'. Calm d') (λ d'. ⊥)
      (write_private (key_path s.dir) hex_true) (λ u. pure true) d
      (write_private-Succeeds (key_path s.dir) hex_true d calm gone) (λ u d' h. h)

-- A gateway that has a token for everybody, once the captcha is solved at the time 3.
abbrev late_net : Net ℕ
late_net = record {
  fetch = λ url query w. (
    ok (
        if ltb w 3
        then record { status = 204; token = none }
        else record { status = 200; token = token_reply query }),
    w + 1,
  );
  instant = λ w. w;
  sleep = λ d w. w + d;
  console = unseen;
  fetch-later = λ url query w. omega arith;
  sleep-later = λ d w. omega arith;
}

late_fetched :
    (client : Bool) (w : ℕ)
    → (get_capability sample_crates late_net cfg.gateway_base client w ≡ (ok none, w + 1))
      ⊎ (get_capability sample_crates late_net cfg.gateway_base client w
          ≡ (ok (some (record { token = token_for client })), w + 1))
unfolding get_capability text_eq
late_fetched true w = elim (Bool-cases (ltb w 3)) [
  | inl e ↦ inl (rw e refl)
  | inr e ↦ inr (rw e refl)
]
late_fetched false w = elim (Bool-cases (ltb w 3)) [
  | inl e ↦ inl (rw e refl)
  | inr e ↦ inr (rw e refl)
]

late-IsFor : (a : Bool) → IsFor sample_crates identity late_net cfg a (token_for a)
late-IsFor a =
    let i = token_for-IsFor a in
    record { text = i.text; grant = i.grant; says = i.says; signer = i.signer }

nothing-ne-some :
    (info : CapabilityInfo) (w w' : ℕ)
    → ◌≢◌ {A = Result (Option CapabilityInfo) × ℕ} (ok none, w) (ok (some info), w')
nothing-ne-some info w w' h = cc

late-IsHonest : IsHonest sample_crates identity late_net cfg
late-IsHonest = record {
  answers = λ client w w' info h. elim (late_fetched client w) [
    | inl none_yet ↦ absurd (nothing-ne-some info (w + 1) w' (sym none_yet ∙ h))
    | inr found ↦
        subst (IsFor sample_crates identity late_net cfg client)
          (answered (token_for client) info (w + 1) w' (sym found ∙ h)) (late-IsFor client)
  ];
}

-- The first request and one of the poll find nothing.
provides : Provides sample_crates identity late_net cfg s 0
unfolding get_capability after open_in_browser text_eq
provides true = in_time 1 (record { token = token_for true }) refl (refl, omega arith, tt) refl
provides false = in_time 1 (record { token = token_for false }) refl (refl, omega arith, tt) refl

runs : Runs sample_crates identity late_net cfg spawn hash (lit ".")
runs client m args asked h r = (refl, r)

main-success_example :
    ((main
        (ok cfg)
        (λ h o (config : WrapperConfig sample_crates).
          pull sample_crates identity late_net config spawn (ok (1 ∷ [])) (since_epoch 1000 0) h o)
        hash
        (lit ".")
        start).0
      ≡ success)
    × IsClear s.dir
        (main
          (ok cfg)
          (λ h o (config : WrapperConfig sample_crates).
            pull sample_crates identity late_net config spawn
              (ok (1 ∷ []))
              (since_epoch 1000 0)
              h
              o)
          hash
          (lit ".")
          start).1.disk
main-success_example =
    main-success sample_crates identity late_net cfg spawn late-IsHonest (1 ∷ []) 1000 0 hash hash
      (lit ".") start normal_hash empty-IsAbsent generates provides runs
