-- ===== src/Server/Tests/Http.antt =====
-- The handlers run on the sample database, and their theorems there.
use sponsor.Common.{
  ℕ, ◌≡◌, ◌↔◌, ◌⊎◌, ◌<◌, ◌≤◌, refl, Bool, true, false, List, ◌++◌, none, some, arith,
}
use sponsor.Common.Result.{ok}
use sponsor.Common.Words.{saturating_add, u64_max, be_bytes, from_be_from}
use sponsor.Common.Text.{Text, lit, bytes, from_utf8, text_eq}
use sponsor.Samples.{sample_crates, sample_sign}
use sponsor.Samples.Memory.{memory, MemoryDb}
use sponsor.Server.Store.{GrantRecord, encode, decode, get_range, get_from, read_u64}
use sponsor.Server.Store.Table.{put_grant, get_grant, decode_row}
use sponsor.Server.Issuer.{new_issuer, issue}
use sponsor.Server.Config.{ServerConfig, build_issuer}
use sponsor.Server.Release.{}
use sponsor.Server.State.{AppState}
use sponsor.Server.Treasury.{}
use sponsor.Server.PoolWatch.{tick, topped_up}
use sponsor.Server.PoolWatch.Laws.{TickSpec, tick-TickSpec}
use sponsor.Server.Tests.Support
use sponsor.Server.Tests.Support.{fake_cfg, default_options, fake_treasury}
use sponsor.Server.Http.{
  token_json, err_json, forbidden, now_unix, since_epoch, parse_client, no_content_response, ok_200,
}
use sponsor.Server.Http.Capability.{get}
use sponsor.Server.Http.Page.{page}
use sponsor.Server.Http.Page.Guard.{IsHex, page-ok_iff}
use sponsor.Server.Http.Fund.{FundRequest, grant, submit}
use sponsor.Server.Http.Fund.Outcome.{Submitted, submit-Submitted}
use sponsor.Server.Http.Fund.Ledger.{IsConsistent, IsLedger, submit-IsLedger, row-IsIssued}
use sponsor.Server.Http.Fund.Answers.{IsAwarded, submit-IsAwarded}
use sponsor.Server.Http.Fund.Again.{awarded_again}

abbrev pub cfg : ServerConfig sample_crates
cfg = fake_cfg default_options (lit "/tmp")

abbrev pub fake_state : Bool → AppState sample_crates ℕ
fake_state pass =
    Support.fake_state
      (record { captcha_passes = pass; capability_cap = record { micros = 10_000_000 } })

abbrev pub client : Text
client = sample_crates.show_address true

abbrev pub req : FundRequest
req = record { client = client; turnstile_token = lit "ok" }

abbrev pub empty_db : MemoryDb
empty_db = record { table = λ k. none; broken = false }

-- The token that the first request at this time is answered with.
abbrev pub first : Text
first =
    sample_crates.to_token (
      record { signer = true; spending_cap = 10_000_000; pool_id = true; expiry = 2_593_000 },
      true,
    )

unfoldable pub run : Unit {0}
unfolding now_unix token_json err_json no_content_response submit grant parse_client build_issuer
    new_issuer issue sample_sign saturating_add put_grant get_grant text_eq
run = tt

unfoldable pub codec : Unit {0}
unfolding encode decode be_bytes from_be_from get_range get_from read_u64 from_utf8 bytes
codec = tt

first_answer :
    (submit sample_crates memory (fake_state true) (since_epoch 1000 5) req empty_db).0
    ≡ token_json first
unfolding run
first_answer = refl

abbrev after : MemoryDb
after = (submit sample_crates memory (fake_state true) (since_epoch 1000 5) req empty_db).1

polled : (get sample_crates memory (since_epoch 2000 0) client after).0 ≡ token_json first
unfolding run codec get
polled = refl

expired : (get sample_crates memory (since_epoch 2_593_000 0) client after).0 ≡ no_content_response
unfolding run codec get
expired = refl

turned_away :
    (submit sample_crates memory (fake_state false) (since_epoch 1000 5) req empty_db).0
    ≡ err_json forbidden "captcha_failed"
unfolding run
turned_away = refl

submit-Submitted_example :
    Submitted sample_crates memory
      (fake_state true)
      (since_epoch 1000 5)
      req
      empty_db
      (submit sample_crates memory (fake_state true) (since_epoch 1000 5) req empty_db).0
      (submit sample_crates memory (fake_state true) (since_epoch 1000 5) req empty_db).1
submit-Submitted_example =
    submit-Submitted sample_crates memory (fake_state true) (since_epoch 1000 5) req empty_db

pub consistent : IsConsistent sample_crates memory (fake_state true)
unfolding new_issuer
consistent = record { same_cap = refl; cap_IsU64 = omega arith }

pub no_rows : (j : Bool) (raw : List ℕ) → none ≡ some raw → ⊥
no_rows j raw e = cc

pub empty-IsLedger : IsLedger sample_crates memory (fake_state true) empty_db
empty-IsLedger = record { row = λ j raw e. absurd (no_rows j raw e) }

early : now_unix (since_epoch 1000 5) ≤ u64_max
unfolding now_unix
early = omega arith

in_time : now_unix (since_epoch 1000 5) < u64_max
unfolding now_unix
in_time = omega arith

submit-IsLedger_example : IsLedger sample_crates memory (fake_state true) after
submit-IsLedger_example =
    submit-IsLedger sample_crates memory (fake_state true) consistent (since_epoch 1000 5) req
      empty_db early empty-IsLedger

pub lasting : 0 < (fake_state true).issuer.ttl_secs
unfolding new_issuer
lasting = omega arith

submit-IsAwarded_example :
    (a : Bool) × (sample_crates.parse_address client ≡ ok a)
    × ((fake_state true).turnstile.verify req.turnstile_token none ≡ ok true)
    × IsAwarded sample_crates memory (fake_state true) a (now_unix (since_epoch 1000 5)) first after
submit-IsAwarded_example =
    submit-IsAwarded sample_crates memory (fake_state true) consistent (since_epoch 1000 5) req
      empty_db first in_time lasting empty-IsLedger first_answer

-- The record that the first request stored.
abbrev kept : GrantRecord
kept = record { spending_cap = 10_000_000; expiry = 2_593_000; issued_unix = 1000; token = first }

kept_row : decode_row (after.table true) ≡ ok (some kept)
unfolding run codec decode_row
kept_row = refl

after-IsLedger : IsLedger sample_crates memory (fake_state true) after
after-IsLedger =
    submit-IsLedger sample_crates memory (fake_state true) consistent (since_epoch 1000 5) req
      empty_db early empty-IsLedger

abbrev first_award : IsAwarded sample_crates memory (fake_state true) true 1000 first after
first_award = record {
  rec = kept;
  held = kept_row;
  live = omega arith;
  token_is = refl;
  issued = row-IsIssued sample_crates memory (fake_state true) after-IsLedger true kept kept_row;
}

read_back : (get_grant sample_crates memory true after).0 ≡ ok (some kept)
unfolding run codec
read_back = refl

is_client : sample_crates.parse_address client ≡ ok true
unfolding text_eq
is_client = refl

later : now_unix (since_epoch 2000 0) < 2_593_000
unfolding now_unix
later = omega arith

awarded_again_example :
    ((get sample_crates memory (since_epoch 2000 0) client after).0 ≡ token_json first)
    × ((submit sample_crates memory (fake_state true) (since_epoch 2000 0) req after).0
        ≡ token_json first)
    × ((submit sample_crates memory (fake_state true) (since_epoch 2000 0) req after).1.table
        ≡ after.table)
awarded_again_example =
    awarded_again sample_crates memory (fake_state true) true 1000 first after first_award
      (since_epoch 2000 0) req (some kept) is_client refl later read_back

abbrev template : Text
template = lit "<div data-sitekey={{SITEKEY}} client={{CLIENT}}></div>"

page-ok_iff_example :
    ((page sample_crates template (fake_state true) (lit "<script>")).status ≡ ok_200) ↔ (
      (digits : Text) × ((lit "<script>" ≡ lit "0x" ++ digits) ⊎ (lit "<script>" ≡ digits))
      × IsHex 40 digits)
page-ok_iff_example = page-ok_iff sample_crates template (fake_state true) (lit "<script>")

tick-TickSpec_example :
    TickSpec sample_crates
      (fake_treasury true)
      (record { micros = 20 })
      (record { micros = 100 })
      true
      19
      (tick sample_crates
        (fake_treasury true)
        (record { micros = 20 })
        (record { micros = 100 })
        true
        19).0
      (tick sample_crates
        (fake_treasury true)
        (record { micros = 20 })
        (record { micros = 100 })
        true
        19).1
tick-TickSpec_example =
    tick-TickSpec sample_crates (fake_treasury true) (record { micros = 20 })
      (record { micros = 100 }) true 19

ticked :
    (tick sample_crates
      (fake_treasury true)
      (record { micros = 20 })
      (record { micros = 100 })
      true
      19)
    ≡ (topped_up 19 119, 119)
unfolding tick saturating_add
ticked = refl
