-- ===== src/Server/Tests/Interleaved.antt =====
-- Two requests of one client, each of which looks the client up before the other has written.
use sponsor.Common.{ℕ, ◌≡◌, ◌<◌, refl, true, List, [], ◌∷◌, All, arith}
use sponsor.Common.Words.{u64_max}
use sponsor.Common.Text.{Text}
use sponsor.Samples.{sample_crates}
use sponsor.Samples.Memory.{memory}
use sponsor.Server.Http.{token_json, now_unix, since_epoch}
use sponsor.Server.Http.Capability.{get}
use sponsor.Server.Http.Fund.Ledger.{IsLedger}
use sponsor.Server.Http.Interleaved.{Call, answered, step_at, interleave, advance}
use sponsor.Server.Http.Interleaved.Served.{arrived, calls_of, ServedIn, interleave-Served}
use sponsor.Server.Tests.Support.{fake_captcha}
use sponsor.Server.Tests.Http.{
  fake_state, client, req, empty_db, first, run, codec, consistent, empty-IsLedger, lasting,
}

abbrev call : ℕ → Call
call time = record { request = req; time = since_epoch time 0; verifier = fake_captcha true }

abbrev both : List Call
both = call 1000 ∷ call 1001 ∷ []

abbrev order : List ℕ
order = 0 ∷ 1 ∷ 0 ∷ 1 ∷ 1 ∷ 0 ∷ []

in_time : All (λ (v : Call). now_unix v.time < u64_max) both
unfolding now_unix
in_time = (omega arith, (omega arith, tt))

abbrev second : Text
second =
    sample_crates.to_token (
      record { signer = true; spending_cap = 10_000_000; pool_id = true; expiry = 2_593_001 },
      true,
    )

-- Both are signed, and the last write is what a poll reads.
both_signed :
    (interleave sample_crates memory
      (fake_state true)
      order
      (arrived sample_crates memory (fake_state true) both)
      empty_db).0
    ≡ record { call = call 1000; phase = answered (token_json first) }
      ∷ record { call = call 1001; phase = answered (token_json second) }
      ∷ []
unfolding run codec interleave step_at advance
both_signed = refl

last_wins :
    (get sample_crates memory
      (since_epoch 2000 0)
      client
      (interleave sample_crates memory
        (fake_state true)
        order
        (arrived sample_crates memory (fake_state true) both)
        empty_db).1).0
    ≡ token_json first
unfolding run codec interleave step_at advance get
last_wins = refl

interleave-Served_example :
    (calls_of sample_crates memory
        (fake_state true)
        (interleave sample_crates memory
          (fake_state true)
          order
          (arrived sample_crates memory (fake_state true) both)
          empty_db).0
      ≡ both)
    × IsLedger sample_crates memory
        (fake_state true)
        (interleave sample_crates memory
          (fake_state true)
          order
          (arrived sample_crates memory (fake_state true) both)
          empty_db).1
    × All
        (ServedIn sample_crates memory
          (fake_state true)
          (interleave sample_crates memory
            (fake_state true)
            order
            (arrived sample_crates memory (fake_state true) both)
            empty_db).1)
        (interleave sample_crates memory
          (fake_state true)
          order
          (arrived sample_crates memory (fake_state true) both)
          empty_db).0
interleave-Served_example =
    interleave-Served sample_crates memory (fake_state true) consistent lasting order both empty_db
      in_time empty-IsLedger
