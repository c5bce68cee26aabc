-- ===== src/Server/Issuer/Laws.antt =====
-- What an issued token says, to whoever decodes it.
use sponsor.Common.{ℕ, ◌≡◌, ap, refl, subst}
use sponsor.Common.Result.{ok, bind-eq-ok}
use sponsor.Common.Words.{saturating_add, saturating_add-IsU64, IsU64}
use sponsor.Common.Text.{Text, IsText}
use sponsor.Common.Text.Trim.{trim}
use sponsor.Crates.{Crates, Capability}
use sponsor.Server.Issuer.{Issuer, issue, owner_address}

module _ (crates : Crates) where
  open crates use {
    Address, B256, Grant, Signed, from_token, grants, owner, sign, to_token, read, from-to_token,
    grants-sign, token-IsText,
  }

  -- A token that delegates from the issuer's pool to `delegate`, up to the issuer's cap.
  pub record Delegates (i : Issuer crates) (delegate : Address) (now : ℕ) (token : Text)
      (expiry : ℕ) : Type 0 where
    pub grant : Grant
    pub decoded : from_token token ≡ ok grant
    pub signer : (grants grant).signer ≡ delegate
    pub pool_id : (grants grant).pool_id ≡ i.pool_id
    pub spending_cap : (grants grant).spending_cap ≡ i.spending_cap
    pub expires : (grants grant).expiry ≡ expiry
    pub owned : owner grant i.domain ≡ ok (owner_address crates i)
    pub lasts : expiry ≡ saturating_add now i.ttl_secs
    pub text : IsText token
    pub trimmed : trim token ≡ token
    pub in_range : IsU64 expiry

  -- The capability that `issue` signs.
  abbrev pub offered : Issuer crates → Address → ℕ → Capability Address B256
  offered i delegate now = record {
    signer = delegate;
    spending_cap = i.spending_cap;
    pool_id = i.pool_id;
    expiry = saturating_add now i.ttl_secs;
  }

  Delegates-sign :
      (i : Issuer crates) (delegate : Address) (now : ℕ) (s : Signed)
      → sign (offered i delegate now) i.signer i.domain ≡ ok s
      → Delegates i delegate now (to_token s) (saturating_add now i.ttl_secs)
  unfolding owner_address
  Delegates-sign i delegate now s h =
      let (says, by) = grants-sign (offered i delegate now) i.signer i.domain s h in
      record {
        grant = read s;
        decoded = from-to_token s;
        signer = ap (λ c. c.signer) says;
        pool_id = ap (λ c. c.pool_id) says;
        spending_cap = ap (λ c. c.spending_cap) says;
        expires = ap (λ c. c.expiry) says;
        owned = by;
        lasts = refl;
        text = token-IsText s;
        trimmed = crates.trim-to_token s;
        in_range = saturating_add-IsU64 now i.ttl_secs;
      }

  -- Whatever `issue` returns decodes to a capability for the delegate, with the pool and cap of
  -- the issuer, the returned expiry (the clock plus the lifetime, at most the last 64-bit second)
  -- and the signature of the owner.
  pub issue-Delegates :
      (i : Issuer crates) (delegate : Address) (now : ℕ) (token : Text) (expiry : ℕ)
      → issue crates i delegate now ≡ ok (token, expiry)
      → Delegates i delegate now token expiry
  unfolding issue
  issue-Delegates i delegate now token expiry h =
      let (s, signed, same) = bind-eq-ok (sign (offered i delegate now) i.signer i.domain) _ h in
      let token_is : to_token s ≡ token = cc in
      let expiry_is : saturating_add now i.ttl_secs ≡ expiry = cc in
      subst (λ t. Delegates i delegate now t expiry) token_is
        (subst (λ e. Delegates i delegate now (to_token s) e) expiry_is
          (Delegates-sign i delegate now s signed))

  -- Issuing fails only where signing does.
  pub issue_total :
      (i : Issuer crates) (delegate : Address) (now : ℕ) (s : Signed)
      → sign (offered i delegate now) i.signer i.domain ≡ ok s
      → issue crates i delegate now ≡ ok (to_token s, saturating_add now i.ttl_secs)
  unfolding issue
  issue_total i delegate now s h = rw h
