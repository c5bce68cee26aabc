-- ===== src/Server/State/Ready.antt =====
-- A server that booted from its environment is one that the laws of `POST /fund` speak of.
use sponsor.Common.{◌≡◌, sym, ap, ◌∙◌, subst, arith}
use sponsor.Common.Result.{Result, ok}
use sponsor.Common.Action.{Ends-ok}
use sponsor.Common.Words.{IsU64}
use sponsor.Common.Text.{Text}
use sponsor.Crates.{Crates}
use sponsor.Server.Captcha.{Post}
use sponsor.Server.Config.{ServerConfig, Env, from_env}
use sponsor.Server.Config.Reads.{from_env-Reads, ReadsU64-IsU64}
use sponsor.Server.Treasury.{Client}
use sponsor.Server.Store.Redb.{Redb}
use sponsor.Server.State.{AppState, Host, build}
use sponsor.Server.State.Boot.{build-IsBooted}
use sponsor.Server.Http.Fund.Ledger.{IsConsistent}

module _ (crates : Crates) (redb : Redb crates.Address crates.address_discrete)
    {Chain Provider : Type 0} (client : Client crates Chain Provider)
    (load_signer : Text → Text → Result crates.PrivateKey) (http : Post) where
  -- A server that boots with the configuration read from its environment has the same cap in its
  -- configuration and its issuer, and the cap fits 64 bits: the condition of the laws on `POST
  -- /fund`.
  pub build-IsConsistent :
      (e : Env) (cfg : ServerConfig crates) (host : Host crates redb.Disk Chain)
      (r : AppState crates Chain × redb.Db)
      → from_env crates e ≡ ok cfg
      → (build crates redb client load_signer http e cfg host).0 ≡ ok r
      → IsConsistent crates redb r.0
  build-IsConsistent e cfg host r read booted =
      let b =
        Ends-ok _ _ _ _ (build-IsBooted crates redb client load_signer http e cfg host) booted in
      let same = ap (λ (c : ServerConfig crates). c.capability_cap.micros) b.cfg_is in
      record {
        same_cap = same ∙ sym b.spending_cap;
        cap_IsU64 = subst IsU64 (sym same) (
            ReadsU64-IsU64 e _ _ _ (omega arith) (from_env-Reads crates e cfg read).capability_cap);
      }
