-- ===== src/Server/Tests/Units.antt =====
-- The unit tests of crates/server, as they stand beside the code: each is a test of the model.
use sponsor.Common.{ℕ, ◌+◌, ◌≡◌, refl, Bool, true, false, not, ◌&&◌, [], ◌∷◌, none, some, all, ◌==◌}
use sponsor.Common.Result.{ok}
use sponsor.Common.Words.{u64_max, be_bytes, from_be_from}
use sponsor.Common.Words
use sponsor.Common.Text.{Text, lit, text_eq, bytes, from_utf8}
use sponsor.Common.Text.Split.{strip_prefix, split_once, split}
use sponsor.Common.Text.Number.{parse_u64}
use sponsor.Crates.{}
use sponsor.Samples.{sample_crates, sample_sign}
use sponsor.Samples.Memory.{memory, MemoryDb}
use sponsor.Samples.Asserts.{ok_and, some_and, is_ok, is_none, repeat}
use sponsor.Server.Money.{saturating_add}
use sponsor.Server.PoolWatch.{needs_refill}
use sponsor.Server.Store.{GrantRecord, encode, decode, get_range, get_from, read_u64}
use sponsor.Server.Store.Table.{open_store, create_table, put_grant, get_grant, decode_row}
use sponsor.Server.Issuer.{Issuer, new_issuer, issue}
use sponsor.Server.Release.{new_pin, is_release_tag}
use sponsor.Server.Config.{ServerConfig, Env, from_env, env_var, env_u64, env_or, pin_from_env}
use sponsor.Server.Captcha.{Post, Turnstile, with_endpoint, error_for_status}
use sponsor.Server.Captcha
use sponsor.Server.Tests.Boot.{find}
use sponsor.Wrapper.Keystore.{starts_with}

-- money.rs
unfoldable micro_add_saturates : Bool
unfolding saturating_add Words.saturating_add
micro_add_saturates =
    (saturating_add (record { micros = u64_max }) (record { micros = 1 })).micros == u64_max

-- pool_watch.rs
unfoldable refills_only_below_low_water : Bool
unfolding needs_refill
refills_only_below_low_water =
    needs_refill 19_999_999 20_000_000
    && not (needs_refill 20_000_000 20_000_000)
    && not (needs_refill 50_000_000 20_000_000)

-- store.rs
abbrev same_record : GrantRecord → GrantRecord → Bool
same_record a b =
    a.spending_cap == b.spending_cap
    && a.expiry == b.expiry
    && a.issued_unix == b.issued_unix
    && text_eq a.token b.token

abbrev rec : GrantRecord
rec = record {
  spending_cap = 10_000_000;
  expiry = 1_769_904_000;
  issued_unix = 1_767_312_000;
  token = lit "dcap1:AAAA";
}

abbrev rec2 : GrantRecord
rec2 = record {
  spending_cap = 10_000_000;
  expiry = 1_769_904_000;
  issued_unix = 1_767_312_000;
  token = lit "dcap1:BBBB";
}

abbrev put_then_get : MemoryDb → Bool
put_then_get s =
    let (before, s) = get_grant sample_crates memory true s in
    let (put, s) = put_grant sample_crates memory true rec s in
    let (found, s) = get_grant sample_crates memory true s in
    let (put2, s) = put_grant sample_crates memory true rec2 s in
    let (found2, s) = get_grant sample_crates memory true s in
    ok_and is_none before
    && is_ok put
    && ok_and (some_and (same_record rec)) found
    && is_ok put2
    && ok_and (some_and (same_record rec2)) found2

unfoldable put_then_get_roundtrips_and_overwrites : Bool
unfolding open_store create_table put_grant get_grant decode_row encode decode be_bytes from_be_from
    get_range get_from read_u64 from_utf8 bytes text_eq
put_then_get_roundtrips_and_overwrites =
    ok_and put_then_get (open_store sample_crates memory (lit "/tmp/store") tt).0

-- issuer.rs
abbrev is_same : Bool → Bool → Bool
is_same true b = b
is_same false b = not b

abbrev issuer : Issuer sample_crates
unfolding new_issuer
issuer = new_issuer sample_crates true (421_614, false) true 10_000_000 2_592_000

abbrev decodes : Text × ℕ → Bool
decodes (token, expiry) =
    starts_with token (lit "dcap1:")
    && expiry == 1_769_904_000 + 2_592_000
    && ok_and
        (λ grant.
          let says = sample_crates.grants grant in
          is_same says.signer false
          && is_same says.pool_id true
          && says.spending_cap == 10_000_000
          && says.expiry == expiry
          && ok_and (is_same true) (sample_crates.owner grant (421_614, false)))
        (sample_crates.from_token token)

unfoldable issued_token_decodes_and_recovers_owner_and_fields : Bool
unfolding issuer issue sample_sign Words.saturating_add be_bytes from_be_from starts_with
    strip_prefix
issued_token_decodes_and_recovers_owner_and_fields =
    ok_and decodes (issue sample_crates issuer false 1_769_904_000)

-- config.rs: the addresses and the pool are sample ones.
abbrev vars : Env
vars = find (
    ("SPONSOR_RPC_URL", lit "http://localhost:8545")
    ∷ ("SPONSOR_PAYMENT_POOL_ADDR", sample_crates.show_address true)
    ∷ ("SPONSOR_POOL_ID", sample_crates.show_address true)
    ∷ ("SPONSOR_CAPACITY_BOND_ADDR", sample_crates.show_address false)
    ∷ ("SPONSOR_TREASURY_KEYSTORE", lit "/tmp/ks.json")
    ∷ ("SPONSOR_TURNSTILE_SECRET", lit "s")
    ∷ ("SPONSOR_TURNSTILE_SITEKEY", lit "k")
    ∷ ("SPONSOR_DECDN_RELEASE", lit "v0.1.0")
    ∷ ("SPONSOR_DECDN_SUMS_SHA256", repeat (lit "ab") 32)
    ∷ ("SPONSOR_WRAPPER_RELEASE", lit "v0.2.0-rc.1")
    ∷ ("SPONSOR_WRAPPER_SUMS_SHA256", repeat (lit "cd") 32)
    ∷ [])

abbrev has_defaults : ServerConfig sample_crates → Bool
has_defaults cfg =
    cfg.chain_id == 421_614
    && cfg.capability_cap.micros == 5_000_000
    && cfg.capability_ttl_secs == 172_800
    && cfg.pool_low_water.micros == 20_000_000
    && text_eq cfg.decdn_release.tag (lit "v0.1.0")
    && text_eq cfg.wrapper_release.tag (lit "v0.2.0-rc.1")

unfoldable from_env_reads_required_and_defaults : Bool
unfolding repeat find from_env env_var env_u64 env_or pin_from_env new_pin is_release_tag
    strip_prefix split_once split bytes parse_u64 text_eq
from_env_reads_required_and_defaults = ok_and has_defaults (from_env sample_crates vars)

unfoldable release_pin_accepts_semver_tags_and_hex_digests : Bool
unfolding repeat new_pin is_release_tag strip_prefix split_once split bytes
release_pin_accepts_semver_tags_and_hex_digests =
    all (λ tag. is_ok (new_pin tag (repeat (lit "0123456789abcdef") 4)))
      (lit "v0.1.0" ∷ lit "v10.20.30" ∷ lit "v1.0.0-rc.1" ∷ lit "v1.0.0-beta-2" ∷ [])

unfoldable release_pin_rejects_anything_a_script_could_misread : Bool
unfolding repeat new_pin is_release_tag strip_prefix split_once split bytes
release_pin_rejects_anything_a_script_could_misread =
    all (λ tag. not (is_ok (new_pin tag (repeat (lit "ab") 32))))
      (lit "0.1.0"
        ∷ lit "v0.1"
        ∷ lit "v0.1.0.1"
        ∷ lit "v0..0"
        ∷ lit "v0.1.0-"
        ∷ lit "v0.1.0 "
        ∷ lit "v0.1.0;rm"
        ∷ lit "v0.1.0$(id)"
        ∷ lit "v0.1.0'"
        ∷ [])
    && all (λ bad. not (is_ok (new_pin (lit "v0.1.0") bad)))
        (repeat (lit "AB") 32 ∷ repeat (lit "ab") 31 ∷ repeat (lit "zz") 32 ∷ [])

-- captcha.rs: the mock server answers 200 with this `success`.
abbrev mocked : Bool → Turnstile
unfolding with_endpoint
mocked success =
    with_endpoint (lit "secret") (λ url form. ok (record { status = 200; success = some success }))
      (lit "http://127.0.0.1/siteverify")

unfoldable returns_true_on_success_json : Bool
unfolding mocked Captcha.verify error_for_status
returns_true_on_success_json = ok_and (λ b. b) (Captcha.verify (mocked true) (lit "token") none)

unfoldable returns_false_on_failure_json : Bool
unfolding mocked Captcha.verify error_for_status
returns_false_on_failure_json = ok_and not (Captcha.verify (mocked false) (lit "bad") none)

-- All of them pass.
all_pass :
    all
      (λ b. b)
      (micro_add_saturates ∷ refills_only_below_low_water ∷ put_then_get_roundtrips_and_overwrites
        ∷ issued_token_decodes_and_recovers_owner_and_fields ∷ from_env_reads_required_and_defaults
        ∷ release_pin_accepts_semver_tags_and_hex_digests
        ∷ release_pin_rejects_anything_a_script_could_misread ∷ returns_true_on_success_json
        ∷ returns_false_on_failure_json ∷ [])
    ≡ true
unfolding micro_add_saturates refills_only_below_low_water put_then_get_roundtrips_and_overwrites
    issued_token_decodes_and_recovers_owner_and_fields from_env_reads_required_and_defaults
    release_pin_accepts_semver_tags_and_hex_digests
    release_pin_rejects_anything_a_script_could_misread returns_true_on_success_json
    returns_false_on_failure_json
all_pass = refl
