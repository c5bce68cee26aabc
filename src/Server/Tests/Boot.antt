-- ===== src/Server/Tests/Boot.antt =====
-- Boot and treasury on a small chain: one pool, and a wallet with an allowance.
use sponsor.Common.{
  ℕ, ◌+◌, ◌≡◌, ◌⊎◌, refl, Bool, true, false, List, [], ◌∷◌, none, some, String, if◌then◌else◌, min,
}
use sponsor.Common.Result.{Result, ok, err}
use sponsor.Common.{◌↔◌}
use sponsor.Common.Action.{Ends}
use sponsor.Common.Words.{u64_max}
use sponsor.Common.Text.{Text, lit, text_eq}
use text.Mathlib.Text.{◌==◌}
use sponsor.Common.Text.{bytes}
use sponsor.Common.Text.Split.{strip_prefix, split_once, split}
use sponsor.Common.Text.Number.{parse_u64}
use sponsor.Server.Release.{new_pin, is_release_tag}
use sponsor.Samples.{sample_crates}
use sponsor.Samples.Memory.{memory, MemoryDb}
use sponsor.Server.Config.{
  ServerConfig, Env, from_env, env_var, env_u64, env_or, pin_from_env, load_treasury_signer,
  build_issuer,
}
use sponsor.Server.Config.Reads.{Reads, from_env-Reads}
use sponsor.Server.Money.{MicroUsdc}
use sponsor.Server.Treasury.{Client, DecdnTreasury, Pool, remaining, top_up, pool_owner, connect}
use sponsor.Server.Treasury.Laws.{top_up-Ends, sent, allowed}
use sponsor.Server.State.{AppState, Host, build, build_treasury}
use sponsor.Server.Issuer.{new_issuer, owner_address}
use sponsor.Server.Store.Table.{open_store, create_table}
use sponsor.Server.State.Boot.{IsBooted, build-IsBooted}
use sponsor.Server.State.Ready.{build-IsConsistent}
use sponsor.Server.Http.Fund.Ledger.{IsConsistent}
use sponsor.Server.Captcha.{Post, SiteAnswer, Turnstile, new_turnstile}
use sponsor.Server.Captcha
use sponsor.Server.Captcha.Verdict.{form_of, Says, verify-ok_iff}
use sponsor.Server.Tests.Http.{cfg}

pub record Chain : Type 0 where
  pub pool : Pool sample_crates
  pub allowance : ℕ

abbrev pub chain : Chain
chain = record { pool = record { owner = true; deposit = 50; total_redeemed = 20 }; allowance = 0 }

abbrev deposit : ℕ → Chain → Result ℕ × Chain
deposit amount c =
    (ok amount, record c { pool = record (c.pool) { deposit = c.pool.deposit + amount } })

abbrev pub client : Client sample_crates Chain Text
client = record {
  build_provider = λ url key. ok url;
  usdc = λ pool provider c. (ok false, c);
  get_pool = λ pool provider id c. (ok c.pool, c);
  ensure_allowance = λ provider token holder spender amount c. (ok tt, c);
  top_up = λ pool provider id amount c. deposit amount c;
}

abbrev treasury : DecdnTreasury sample_crates Text
treasury = record {
  provider = lit "http://localhost:8545";
  self_address = true;
  token = false;
  payment_pool = false;
}

remaining_is :
    remaining sample_crates client treasury true chain ≡ (ok (record { micros = 30 }), chain)
unfolding remaining
remaining_is = refl

abbrev pub no_post : Post
no_post url form = err "offline"

abbrev pub load : Text → Text → Result Bool
load path password = ok true

abbrev digest : Text
digest = lit "0123456789abcdef0123456789abcdef0123456789abcdef0123456789abcdef"

unfoldable pub find : List (String × Text) → Env
find [] k = none
find ((j, v) ∷ rest) k = if j == k then some v else find rest k

abbrev pub variables : Env
variables = find (
    ("SPONSOR_RPC_URL", lit "http://localhost:8545")
    ∷ ("SPONSOR_PAYMENT_POOL_ADDR", sample_crates.show_address false)
    ∷ ("SPONSOR_POOL_ID", sample_crates.show_address true)
    ∷ ("SPONSOR_CAPACITY_BOND_ADDR", sample_crates.show_address false)
    ∷ ("SPONSOR_TREASURY_KEYSTORE", lit "/tmp/ks.json")
    ∷ ("SPONSOR_TREASURY_PASSWORD", lit "pw")
    ∷ ("SPONSOR_CAPABILITY_TTL_SECS", lit "3600")
    ∷ ("SPONSOR_TURNSTILE_SECRET", lit "s")
    ∷ ("SPONSOR_TURNSTILE_SITEKEY", lit "k")
    ∷ ("SPONSOR_DECDN_RELEASE", lit "v0.1.0")
    ∷ ("SPONSOR_DECDN_SUMS_SHA256", digest)
    ∷ ("SPONSOR_WRAPPER_RELEASE", lit "v0.2.0-rc.1")
    ∷ ("SPONSOR_WRAPPER_SUMS_SHA256", digest)
    ∷ [])

abbrev pub read_cfg : ServerConfig sample_crates
read_cfg = record {
  bind = lit "127.0.0.1:8080";
  public_url = lit "https://up.decdn.org";
  rpc_url = lit "http://localhost:8545";
  chain_id = 421_614;
  payment_pool = false;
  pool_id = true;
  capacity_bond = false;
  treasury_keystore = lit "/tmp/ks.json";
  capability_cap = record { micros = 5_000_000 };
  capability_ttl_secs = 3600;
  pool_low_water = record { micros = 20_000_000 };
  pool_refill = record { micros = 100_000_000 };
  pool_watch_interval_secs = 3600;
  turnstile_secret = lit "s";
  turnstile_sitekey = lit "k";
  data_dir = lit "./data";
  decdn_release = record { tag = lit "v0.1.0"; sums_sha256 = digest };
  wrapper_release = record { tag = lit "v0.2.0-rc.1"; sums_sha256 = digest };
}

pub config_read : from_env sample_crates variables ≡ ok read_cfg
unfolding from_env env_var env_u64 env_or pin_from_env new_pin is_release_tag strip_prefix
    split_once split bytes parse_u64 text_eq find
config_read = refl

from_env-Reads_example : Reads sample_crates variables read_cfg
from_env-Reads_example = from_env-Reads sample_crates variables read_cfg config_read

top_up-Ends_example :
    Ends
      (λ (m : MicroUsdc) chain'.
        (credited : ℕ) × ((allowed sample_crates client treasury true
            (record { micros = 7 })
            chain).0
          ≡ ok tt)
        × ((sent sample_crates client treasury true (record { micros = 7 }) chain).0 ≡ ok credited)
        × (chain' ≡ (sent sample_crates client treasury true (record { micros = 7 }) chain).1)
        × (m.micros ≡ min credited u64_max))
      (λ chain'.
        (e : String) × (((allowed sample_crates client treasury true
                (record { micros = 7 })
                chain).0
              ≡ err e)
            × (chain'
                ≡ (allowed sample_crates client treasury true (record { micros = 7 }) chain).1)
          ⊎ ((allowed sample_crates client treasury true (record { micros = 7 }) chain).0 ≡ ok tt)
            × ((sent sample_crates client treasury true (record { micros = 7 }) chain).0 ≡ err e)
            × (chain' ≡ (sent sample_crates client treasury true (record { micros = 7 }) chain).1)))
      (top_up sample_crates client treasury true (record { micros = 7 }) chain)
top_up-Ends_example = top_up-Ends sample_crates client treasury true (record { micros = 7 }) chain

abbrev pub host : Host sample_crates (Unit {0}) Chain
host = record { disk = tt; chain = chain }

build-IsBooted_example :
    Ends
      (λ (r : AppState sample_crates Chain × MemoryDb) host'.
        IsBooted sample_crates memory client load no_post variables cfg chain r.0 host'.chain)
      (λ host'. Unit)
      (build sample_crates memory client load no_post variables cfg host)
build-IsBooted_example = build-IsBooted sample_crates memory client load no_post variables cfg host

abbrev passing : Turnstile
passing =
    new_turnstile (lit "secret") (λ url form. ok (record { status = 200; success = some true }))

verify-ok_iff_example : (Captcha.verify passing (lit "token") none ≡ ok true) ↔ (
    (a : SiteAnswer) × (passing.http passing.endpoint (form_of passing (lit "token") none) ≡ ok a)
    × Says true a)
verify-ok_iff_example = verify-ok_iff passing (lit "token") none true

-- The boot on the variables above succeeds.
abbrev boots :
    (r : AppState sample_crates Chain × MemoryDb) × ((build sample_crates memory client load no_post
        variables read_cfg host).0
      ≡ ok r)
unfolding build build_treasury build_issuer load_treasury_signer connect open_store create_table
    new_issuer env_var pool_owner owner_address text_eq find
boots = (_, refl)

build-IsConsistent_example : IsConsistent sample_crates memory boots.0.0
build-IsConsistent_example =
    build-IsConsistent sample_crates memory client load no_post variables read_cfg host boots.0
      config_read boots.1
