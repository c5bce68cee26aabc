-- ===== src/Wrapper/Tests.antt =====
-- The wrapper run on small inputs, and its theorems at them.
pub mod Flow
pub mod Keys
mod Complete
mod Units
mod Browser
use sponsor.Common.{
  ◌↔◌, ℕ, ◌+◌, ◌≡◌, refl, inl, inr, true, none, some, List, [], ◌∷◌, ◌++◌, all, arith,
}
use sponsor.Common.Result.{Result, ok, err}
use sponsor.Common.Text.{Text, lit, bytes}
use sponsor.Common.Text.Trim.{trim, trim_start, is_whitespace}
use sponsor.Common.Text.Split.{strip_prefix}
use sponsor.Crates.{is_ascii_hexdigit}
use sponsor.Common.{false}
use sponsor.Samples.{sample_crates}
use sponsor.Wrapper.Session.{normalize_hash, to_ascii_lowercase, without_tag}
use sponsor.Wrapper.Session.Hash.{IsHash, normalize_hash-IsHash, normalize_hash_of_printed}
use sponsor.Wrapper.Runner.{PullArgs}
use sponsor.Wrapper.Runner.Flags.{IsRead, to_args-IsRead}
use sponsor.Wrapper.Browser.{unseen}
use sponsor.Wrapper.Api.{Net, Reply, CapabilityInfo, poll_capability, poll, get_capability}
use sponsor.Wrapper.Api.Found.{request, after, Waits, poll_capability-found}
use sponsor.Wrapper.Api.Poll.{Polled, poll_capability-Polled}
use sponsor.Wrapper.Api.{info_of}
use sponsor.Wrapper.Api.Contract.{reply_of, learned, get-learned}
use sponsor.Samples.Memory.{memory, MemoryDb}
use sponsor.Server.Store.Table.{get_grant}
use sponsor.Server.Http.{since_epoch, now_unix}
use sponsor.Server.Http.Capability.{get}
use sponsor.Wrapper.Keystore.{read_address}
use sponsor.Wrapper.Keystore.Address.{IsStated, read_address-ok_iff}
use sponsor.Wrapper.Config.{expand_home}
use sponsor.Wrapper.Config.Home.{Expanded, expand_home-Expanded}

abbrev upper : Text
upper = lit "9194000D7B356650E6924A7746EC4AFB0B705838B65913C0E46CBA6B15AF69E5"

abbrev lower : Text
lower = lit "9194000d7b356650e6924a7746ec4afb0b705838b65913c0e46cba6b15af69e5"

normalized_printed : normalize_hash (lit " b3:" ++ (upper ++ lit " \n")) ≡ ok lower
unfolding normalize_hash to_ascii_lowercase without_tag trim trim_start is_whitespace strip_prefix
    bytes is_ascii_hexdigit
normalized_printed = refl

refused_twice :
    normalize_hash (lit "b3:0x" ++ lower)
    ≡ err "not a BLAKE3 hash (expected 64 hex characters, optionally b3:-prefixed)"
unfolding normalize_hash to_ascii_lowercase without_tag trim trim_start is_whitespace strip_prefix
    bytes is_ascii_hexdigit
refused_twice = refl

normalize_hash-IsHash_example : IsHash lower
normalize_hash-IsHash_example = normalize_hash-IsHash _ lower normalized_printed

upper_digits : all is_ascii_hexdigit upper ≡ true
unfolding is_ascii_hexdigit
upper_digits = refl

normalize_hash_of_printed_example :
    normalize_hash (lit "0x" ++ upper) ≡ ok (to_ascii_lowercase upper)
normalize_hash_of_printed_example =
    normalize_hash_of_printed (lit "0x" ++ upper) upper (refl, upper_digits) (inr (inr refl))

abbrev args : PullArgs
args = record {
  hash = lower;
  output = lit ".";
  capability_file = lit "/d/capability";
  keystore = lit "/d/keystore";
  password_file = lit "/d/password";
  data_dir = lit "/d";
  rpc_url = lit "https://rpc";
  payment_pool_address = lit "0x01";
  capacity_bond_address = none;
  slash_judge_address = some (lit "0x02");
  chain_id = 421_614;
}

to_args-IsRead_example : IsRead args
to_args-IsRead_example = to_args-IsRead args

-- A gateway with a list of replies, and a clock that only requests and sleeps move.
record World : Type 0 where
  time : ℕ
  replies : List Reply

abbrev next : List Reply → Result Reply
next [] = err "connection refused"
next (r ∷ rest) = ok r

abbrev later : List Reply → List Reply
later [] = []
later (r ∷ rest) = rest

abbrev net : Net World
net = record {
  fetch = λ url query w. (next w.replies, record { time = w.time + 1; replies = later w.replies });
  instant = λ w. w.time;
  sleep = λ d w. record { time = w.time + d; replies = w.replies };
  console = unseen;
  fetch-later = λ url query w. omega arith;
  sleep-later = λ d w. omega arith;
}

abbrev not_yet : Reply
not_yet = record { status = 204; token = none }

abbrev issued : Reply
issued = record { status = 200; token = some (lit "dcap1:AA") }

abbrev start : World
start = record { time = 0; replies = not_yet ∷ not_yet ∷ issued ∷ [] }

third_time :
    poll_capability sample_crates net (lit "http://gw") true 600_000_000_000 start
    ≡ (some (ok (record { token = lit "dcap1:AA" })), record { time = 4_000_000_003; replies = [] })
unfolding poll_capability poll get_capability
third_time = refl

poll_capability-Polled_example :
    (r : Result CapabilityInfo) × ((poll_capability sample_crates net
        (lit "http://gw")
        true
        5_000_000_000
        start).0
      ≡ some r)
    × Polled sample_crates net
        (lit "http://gw")
        true
        (0 + 5_000_000_000)
        r
        (poll_capability sample_crates net (lit "http://gw") true 5_000_000_000 start).1
poll_capability-Polled_example =
    poll_capability-Polled sample_crates net (lit "http://gw") true 5_000_000_000 start

abbrev gateway : Text
gateway = lit "http://gw"

waited :
    Waits sample_crates net gateway true (0 + 600_000_000_000) 2 start
    × ((request sample_crates net gateway true (after sample_crates net gateway true 2 start)).0
        ≡ ok (some (record { token = lit "dcap1:AA" })))
unfolding after get_capability
waited = ((refl, omega arith, (refl, omega arith, tt)), refl)

poll_capability-found_example :
    poll_capability sample_crates net gateway true 600_000_000_000 start ≡ (
      some (ok (record { token = lit "dcap1:AA" })),
      (request sample_crates net gateway true (after sample_crates net gateway true 2 start)).1,
    )
poll_capability-found_example =
    poll_capability-found sample_crates net gateway true 600_000_000_000 2 start
      (record { token = lit "dcap1:AA" }) waited.0 waited.1

read_address-ok_iff_example :
    (read_address sample_crates
        (λ path. ok path)
        (λ b. ok b)
        (λ json. some (sample_crates.hex_of true))
        (lit "/d/keystore")
      ≡ ok true)
    ↔ ((raw_bytes : Text) × (json : Text) × (raw : Text) × (◌≡◌ {A = Result Text}
          (ok (lit "/d/keystore"))
          (ok raw_bytes))
        × (◌≡◌ {A = Result Text} (ok raw_bytes) (ok json))
        × (some (sample_crates.hex_of true) ≡ some raw)
        × IsStated sample_crates true raw)
read_address-ok_iff_example =
    read_address-ok_iff sample_crates true (λ path. ok path) (λ b. ok b)
      (λ json. some (sample_crates.hex_of true)) (lit "/d/keystore")

expand_home-Expanded_example :
    Expanded
      (some (lit "/home/u"))
      (lit "~/.decdn")
      (expand_home (some (lit "/home/u")) (lit "~/.decdn"))
expand_home-Expanded_example = expand_home-Expanded (some (lit "/home/u")) (lit "~/.decdn")

abbrev empty_db : MemoryDb
empty_db = record { table = λ k. none; broken = false }

get-learned_example :
    info_of (
      reply_of
        (get sample_crates memory
          (since_epoch 1000 0)
          (sample_crates.show_address true)
          empty_db).0)
    ≡ learned (now_unix (since_epoch 1000 0)) (get_grant sample_crates memory true empty_db).0
get-learned_example = get-learned sample_crates memory (since_epoch 1000 0) true empty_db
