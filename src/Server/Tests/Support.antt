-- ===== src/Server/Tests/Support.antt =====
-- crates/server/src/test_support.rs: the fakes that the tests of the HTTP contract run on.
use sponsor.Common.{ℕ, Bool, true, false}
use sponsor.Common.Result.{ok}
use sponsor.Common.Action.{Action, ◌>>=◌, pure}
use sponsor.Common.Words.{saturating_add}
use sponsor.Common.Text.{Text, lit}
use sponsor.Samples.{sample_crates}
use sponsor.Samples.Memory.{memory, MemoryDb}
use sponsor.Server.Money.{MicroUsdc}
use sponsor.Server.Config.{ServerConfig}
use sponsor.Server.Captcha.{CaptchaVerifier}
use sponsor.Server.Issuer.{Issuer, new_issuer}
use sponsor.Server.State.{AppState}
use sponsor.Server.Store.Table.{open_store}
use sponsor.Server.Treasury.{Treasury}

-- FakeTreasury: the chain is the remaining balance.
abbrev pub fake_treasury : Bool → Treasury sample_crates ℕ
fake_treasury owner = record {
  owner_address = owner;
  remaining = λ pool_id r. (ok (record { micros = r }), r);
  top_up = λ pool_id additional r. (
    ok (record { micros = saturating_add r additional.micros }),
    saturating_add r additional.micros,
  );
  pool_owner = λ pool_id r. (ok owner, r);
}

-- FakeCaptcha
abbrev pub fake_captcha : Bool → CaptchaVerifier
fake_captcha pass = record {
  verify = λ token remote_ip. ok pass;
  answered_by = λ site token remote_ip. ok pass;
}

pub record FakeOptions : Type 0 where
  pub captcha_passes : Bool
  pub capability_cap : MicroUsdc

-- FakeOptions::default
abbrev pub default_options : FakeOptions
default_options = record { captcha_passes = true; capability_cap = record { micros = 10_000_000 } }

-- The configuration of app_state_with_options. The address 0x22… and the pool 0x11… are sample
-- addresses.
abbrev pub fake_cfg : FakeOptions → Text → ServerConfig sample_crates
fake_cfg opts data_dir = record {
  bind = lit "127.0.0.1:0";
  public_url = lit "https://up.decdn.org";
  rpc_url = lit "http://localhost:8545";
  chain_id = 421_614;
  payment_pool = false;
  pool_id = true;
  capacity_bond = false;
  treasury_keystore = lit "/dev/null";
  capability_cap = opts.capability_cap;
  capability_ttl_secs = 2_592_000;
  pool_low_water = record { micros = 20_000_000 };
  pool_refill = record { micros = 100_000_000 };
  pool_watch_interval_secs = 3600;
  turnstile_secret = lit "secret";
  turnstile_sitekey = lit "TEST_SITEKEY";
  data_dir = data_dir;
  decdn_release = record {
    tag = lit "v0.1.0";
    sums_sha256 = lit "abababababababababababababababababababababababababababababababab";
  };
  wrapper_release = record {
    tag = lit "v0.2.0";
    sums_sha256 = lit "cdcdcdcdcdcdcdcdcdcdcdcdcdcdcdcdcdcdcdcdcdcdcdcdcdcdcdcdcdcdcdcd";
  };
}

abbrev pub fake_issuer : FakeOptions → Issuer sample_crates
fake_issuer opts =
    new_issuer sample_crates true (sample_crates.voucher_domain 421_614 false) true
      opts.capability_cap.micros 2_592_000

abbrev pub fake_state : FakeOptions → AppState sample_crates ℕ
fake_state opts = record {
  treasury = fake_treasury true;
  issuer = fake_issuer opts;
  turnstile = fake_captcha opts.captcha_passes;
  cfg = fake_cfg opts (lit "/tmp");
}

-- app_state_with_options, in the directory that `tempdir` returns; the store stands beside the
-- state, as everywhere in the model. The state of FakeTreasury starts at 100 000 000.
unfoldable pub app_state_with_options :
    FakeOptions → Action (Unit {0}) (AppState sample_crates ℕ × MemoryDb)
app_state_with_options opts = do
  store ← open_store sample_crates memory (lit "/tmp")
  pure (fake_state opts, store)
