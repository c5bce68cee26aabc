-- ===== src/Server/Issuer.antt =====
-- crates/server/src/issuer.rs: signing a capability for a delegate, as the pool's owner.
use sponsor.Common.{ℕ}
use sponsor.Common.Result.{Result, ok, ◌>>=◌}
use sponsor.Common.Words.{saturating_add}
use sponsor.Common.Text.{Text}
use sponsor.Crates.{Crates, Capability}
pub mod Laws

module _ (crates : Crates) where
  open crates use {Address, B256, PrivateKey, Domain, key_address, sign, to_token}

  pub record Issuer : Type 0 where
    pub signer : PrivateKey
    pub domain : Domain
    pub pool_id : B256
    pub spending_cap : ℕ
    pub ttl_secs : ℕ

  -- Issuer::new
  unfoldable pub new_issuer : PrivateKey → Domain → B256 → ℕ → ℕ → Issuer
  new_issuer signer domain pool_id spending_cap ttl_secs = record {
    signer = signer;
    domain = domain;
    pool_id = pool_id;
    spending_cap = spending_cap;
    ttl_secs = ttl_secs;
  }

  -- Issuer::owner_address
  unfoldable pub owner_address : Issuer → Address
  owner_address i = key_address i.signer

  -- Issuer::issue
  unfoldable pub issue : Issuer → Address → ℕ → Result (Text × ℕ)
  issue i delegate now_unix = do
    let expiry = saturating_add now_unix i.ttl_secs
    let capability : Capability Address B256 = record {
      signer = delegate;
      spending_cap = i.spending_cap;
      pool_id = i.pool_id;
      expiry = expiry;
    }
    signed ← sign capability i.signer i.domain
    ok (to_token signed, expiry)
