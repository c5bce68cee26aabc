-- ===== src/Wrapper/Tests/Units.antt =====
-- The unit tests of crates/wrapper, as they stand beside the code: each is a test of the model.
use sponsor.Common.{
  length, ◌==◌, ℕ, ◌+◌, ◌≡◌, refl, Bool, true, false, not, ◌&&◌, List, [], ◌∷◌, ◌++◌, Option, none,
  some, all, take, if◌then◌else◌, arith,
}
use sponsor.Common.Result.{Result, err, ok}
use sponsor.Common.Action.{Action, ◌>>=◌, ◌>>◌, pure}
use sponsor.Common.Text.{Text, lit, text_eq, bytes, from_utf8}
use sponsor.Common.Text.Trim.{trim, trim_start, is_whitespace}
use sponsor.Common.Text.Split.{strip_prefix}
use sponsor.Common.Text.Number.{show_u64}
use sponsor.Crates.{is_ascii_hexdigit}
use sponsor.Samples.{sample_crates}
use sponsor.Samples.Asserts.{contains, ok_and, some_and, is_ok, is_none, repeat}
use sponsor.Wrapper.Keystore.{starts_with, read_address, with_prefix}
use sponsor.Wrapper.Files.{
  Disk, exists, is_file, read, write_all, open_truncated, create_dir, set_permissions,
  remove_dir_all, below, remove_file, Removed, removed, not_found, refused,
}
use sponsor.Wrapper.Session.{normalize_hash, to_ascii_lowercase, without_tag}
use sponsor.Wrapper.Session.State.{
  write_private, ensure_key, create_private_dir, open_session, capability, discard, save_capability,
  fresh_key, read_capability, address_at, replace_key, remove_if_present, capability_path,
  password_path,
}
use sponsor.Wrapper.Runner.{PullArgs, to_args}
use sponsor.Wrapper.Browser.{unseen}
use sponsor.Wrapper.Api.{Net, Reply, get_capability, fund_url}
use sponsor.Wrapper.Config.{join, Profile, WrapperConfig, from_toml_str, expand_home}
use sponsor.Wrapper.Session.Identity.{Identity}
use sponsor.Wrapper.Tests.Keys.{identity_for, hex_digits}
use sponsor.Wrapper.Tests.Flow.{identity, empty_disk}

-- session.rs
abbrev hex : Text
hex = lit "9194000d7b356650e6924a7746ec4afb0b705838b65913c0e46cba6b15af69e5"

abbrev upper : Text
upper = lit "9194000D7B356650E6924A7746EC4AFB0B705838B65913C0E46CBA6B15AF69E5"

unfoldable normalize_accepts_website_forms : Bool
unfolding normalize_hash to_ascii_lowercase without_tag trim trim_start is_whitespace strip_prefix
    bytes is_ascii_hexdigit text_eq
normalize_accepts_website_forms =
    ok_and (text_eq hex) (normalize_hash (lit "b3:" ++ hex))
    && ok_and (text_eq hex) (normalize_hash (lit "0x" ++ hex))
    && ok_and (text_eq hex) (normalize_hash upper)

unfoldable normalize_rejects_non_hashes : Bool
unfolding normalize_hash to_ascii_lowercase without_tag trim trim_start is_whitespace strip_prefix
    bytes is_ascii_hexdigit
normalize_rejects_non_hashes =
    not (is_ok (normalize_hash (lit "mistral-7b")))
    && not (is_ok (normalize_hash (lit "b3:" ++ take 63 hex)))
    && not (is_ok (normalize_hash (lit "b3:" ++ (take 63 hex ++ lit "g"))))

abbrev root : Text
root = lit "/tmp/root"

-- The passwords decide on the keys, so that another password is another key.
abbrev keys : Identity sample_crates
unfolding hex_digits text_eq
keys = identity_for hex_digits (λ password. text_eq (take 2 password) (lit "01"))

abbrev filled : ℕ → Result (List ℕ)
unfolding repeat
filled n = ok (repeat (n ∷ []) 32)

abbrev once_and_reused : Action Disk Bool
once_and_reused = do
  session ← open_session root hex
  first ← ensure_key sample_crates keys (filled 1) session
  session2 ← open_session root hex
  again ← ensure_key sample_crates keys (filled 2) session2
  pw ← read (password_path session)
  pure (
      text_eq (sample_crates.show_address first) (sample_crates.show_address again)
      && length pw == 64)

unfoldable key_is_generated_once_and_reused : Bool
unfolding open_session create_private_dir create_dir set_permissions ensure_key fresh_key exists
    is_file address_at read read_address with_prefix write_private open_truncated write_all
    starts_with strip_prefix join text_eq bytes hex_digits
key_is_generated_once_and_reused = ok_and (λ b. b) (once_and_reused empty_disk).0

-- `remove_file(…).unwrap()`
abbrev unwrap_removed : Removed × Disk → Result (Unit {0}) × Disk
unwrap_removed (removed, d) = (ok tt, d)
unwrap_removed (not_found, d) = (err "not found", d)
unwrap_removed (refused, d) = (err "refused", d)

abbrev replaced : Action Disk Bool
replaced = do
  session ← open_session root hex
  first ← ensure_key sample_crates keys (filled 1) session
  save_capability session (lit "dcap1:bound-to-first")
  (λ d. unwrap_removed (remove_file (password_path session) d))
  second ← ensure_key sample_crates keys (filled 2) session
  λ d. (
    ok (
        not (text_eq (sample_crates.show_address first) (sample_crates.show_address second))
        && is_file (password_path session) d
        && not (exists (capability_path session) d)),
    d,
  )

unfoldable key_without_password_is_replaced_with_its_capability : Bool
unfolding open_session create_private_dir create_dir set_permissions ensure_key replace_key
    fresh_key exists is_file address_at read read_address with_prefix write_private open_truncated
    write_all starts_with strip_prefix join text_eq bytes hex_digits save_capability remove_file
    remove_if_present
key_without_password_is_replaced_with_its_capability = ok_and (λ b. b) (replaced empty_disk).0

abbrev read_then_discarded : Action Disk Bool
read_then_discarded = do
  session ← open_session root hex
  before ← capability sample_crates identity session
  save_capability session (lit "dcap1:not-a-token")
  after ← capability sample_crates identity session
  discard session
  λ d. (ok (is_none before && is_none after && not (exists session.dir d)), d)

unfoldable malformed_capability_reads_as_none_and_discard_removes_state : Bool
unfolding open_session create_private_dir create_dir set_permissions capability read_capability
    save_capability exists read write_private open_truncated write_all discard remove_dir_all below
    starts_with strip_prefix join text_eq bytes from_utf8 trim trim_start is_whitespace
malformed_capability_reads_as_none_and_discard_removes_state =
    ok_and (λ b. b) (read_then_discarded empty_disk).0

-- keystore.rs: the key that the sample generates, in a directory of its own.
abbrev generated_reads_back : Action Disk Bool
generated_reads_back = do
  addr ← identity.generate_and_persist root (lit "pw") false
  stated ← address_at sample_crates identity (identity.keystore_path root)
  pure (text_eq (sample_crates.show_address addr) (sample_crates.show_address stated))

unfoldable address_reads_from_generated_keystore : Bool
unfolding address_at read read_address with_prefix write_private open_truncated write_all
    starts_with strip_prefix join text_eq
address_reads_from_generated_keystore = ok_and (λ b. b) (generated_reads_back empty_disk).0

-- runner.rs
abbrev sample : PullArgs
unfolding repeat
sample = record {
  hash = repeat (lit "ab") 32;
  output = lit "out";
  capability_file = lit "/s/capability";
  keystore = lit "/s/keystore.json";
  password_file = lit "/s/password";
  data_dir = lit "/s";
  rpc_url = lit "http://rpc";
  payment_pool_address = lit "0x01";
  capacity_bond_address = some (lit "0x02");
  slash_judge_address = none;
  chain_id = 421_614;
}

abbrev head_of : List Text → Option Text
head_of [] = none
head_of (a ∷ args) = some a

unfoldable value_after : List Text → Text → Option Text
unfolding text_eq
value_after [] flag = none
value_after (a ∷ args) flag =
    let later = value_after args flag in if text_eq a flag then head_of args else later

abbrev starts : List Text → Bool
starts (a ∷ b ∷ args) = text_eq a (lit "bundle") && text_eq b (lit "pull")
starts args = false

unfoldable builds_bundle_pull_with_capability_file : Bool
unfolding sample repeat to_args value_after text_eq show_u64
builds_bundle_pull_with_capability_file =
    let args = to_args sample in
    starts args
    && some_and (text_eq (repeat (lit "ab") 32)) (value_after args (lit "--hash"))
    && some_and (text_eq (lit "/s/capability")) (value_after args (lit "--capability-file"))
    && some_and (text_eq (lit "/s/password")) (value_after args (lit "--keystore-password-file"))
    && some_and (text_eq (lit "0x02")) (value_after args (lit "--capacity-bond-address"))
    && all (λ a. not (text_eq a (lit "--capability"))) args
    && all (λ a. not (text_eq a (lit "--slash-judge-address"))) args

-- config.rs: `SAMPLE` as the profile that toml makes of it.
abbrev sample_profile : Profile sample_crates
sample_profile = record {
  gateway_base = lit "https://gateway.example.com";
  decdn_bin = lit "decdn";
  data_dir = lit "~/.decdn/sponsored";
  rpc_url = lit "https://sepolia-rollup.arbitrum.io/rpc";
  payment_pool = true;
  capacity_bond = some false;
  slash_judge = none;
  chain_id = 421_614;
}

abbrev expanded : Text → WrapperConfig sample_crates → Bool
unfolding join text_eq starts_with strip_prefix
expanded base cfg =
    text_eq cfg.gateway_base (lit "https://gateway.example.com")
    && text_eq cfg.data_dir (join base (lit ".decdn/sponsored"))
    && cfg.chain_id == 421_614
    && is_none cfg.slash_judge

unfoldable parses_profile_and_expands_home : Bool
unfolding from_toml_str expand_home join text_eq starts_with strip_prefix
parses_profile_and_expands_home =
    ok_and (expanded (lit "/home/u"))
      (from_toml_str sample_crates (λ text. ok sample_profile) (some (lit "/home/u")) [])

-- api.rs: the mock server has one answer.
abbrev mocked : Reply → Net ℕ
mocked reply = record {
  fetch = λ url query w. (ok reply, w);
  instant = λ w. w;
  sleep = λ d w. w + d;
  console = unseen;
  fetch-later = λ url query w. omega arith;
  sleep-later = λ d w. omega arith;
}

unfoldable get_capability_maps_204_to_none : Bool
unfolding get_capability
get_capability_maps_204_to_none =
    ok_and is_none
      (get_capability sample_crates (mocked (record { status = 204; token = none }))
        (lit "http://mock") true 0).0

unfoldable get_capability_parses_token : Bool
unfolding get_capability text_eq
get_capability_parses_token =
    ok_and (some_and (λ info. text_eq info.token (lit "dcap1:AAAA")))
      (get_capability sample_crates
        (mocked (record { status = 200; token = some (lit "dcap1:AAAA") })) (lit "http://mock") true
        0).0

unfoldable fund_url_has_no_hash : Bool
unfolding fund_url contains starts_with strip_prefix
fund_url_has_no_hash =
    let url =
      fund_url sample_crates (mocked (record { status = 204; token = none }))
        (lit "https://s.example") true in
    contains url (lit "/fund?client=") && not (contains url (lit "hash"))

-- All of them pass.
all_pass :
    all
      (λ b. b)
      (normalize_accepts_website_forms ∷ normalize_rejects_non_hashes
        ∷ key_is_generated_once_and_reused ∷ key_without_password_is_replaced_with_its_capability
        ∷ malformed_capability_reads_as_none_and_discard_removes_state
        ∷ address_reads_from_generated_keystore ∷ builds_bundle_pull_with_capability_file
        ∷ parses_profile_and_expands_home ∷ get_capability_maps_204_to_none
        ∷ get_capability_parses_token ∷ fund_url_has_no_hash ∷ [])
    ≡ true
unfolding normalize_accepts_website_forms normalize_rejects_non_hashes
    key_is_generated_once_and_reused key_without_password_is_replaced_with_its_capability
    malformed_capability_reads_as_none_and_discard_removes_state
    address_reads_from_generated_keystore builds_bundle_pull_with_capability_file
    parses_profile_and_expands_home get_capability_maps_204_to_none get_capability_parses_token
    fund_url_has_no_hash
all_pass = refl
