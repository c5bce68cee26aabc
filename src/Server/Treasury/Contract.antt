-- ===== src/Server/Treasury/Contract.antt =====
-- The treasury of crates/server/src/treasury.rs in front of the payment pool contract.
use sponsor.Common.{ℕ, ◌+◌, ◌-◌, ◌≤◌, ◌≡◌, ◌∙◌, ap, arith, ◌⊎◌, inl, inr, Option}
use sponsor.Common.Action.{Ends, Ends-map, Ends-then}
use sponsor.Crates.{Crates}
use sponsor.Server.Money.{MicroUsdc}
use sponsor.Server.Treasury.{Treasury, Client, DecdnTreasury, Pool, remaining, top_up, as_treasury}

-- What stands behind a treasury that can be relied on: it reports the balance, reading changes
-- nothing, and a top-up adds its amount. One that is reported as failed has added all or nothing,
-- since the answer to a transaction may be lost.
pub record IsPool (crates : Crates) {Chain : Type 0} (treasury : Treasury crates Chain)
    (pool_id : crates.B256) (balance : Chain → ℕ) : Type 0 where
  pub reports :
      (chain : Chain)
      → Ends
          (λ (m : MicroUsdc) chain'. (m.micros ≡ balance chain) × (balance chain' ≡ balance chain))
          (λ chain'. balance chain' ≡ balance chain)
          (treasury.remaining pool_id chain)
  pub adds :
      (m : MicroUsdc) (chain : Chain)
      → Ends
          (λ (credited : MicroUsdc) chain'. balance chain' ≡ balance chain + m.micros)
          (λ chain'. (balance chain' ≡ balance chain) ⊎ (balance chain' ≡ balance chain + m.micros))
          (treasury.top_up pool_id m chain)

-- The contract, as decdn_client's calls see it: a pool pays out no more than was deposited.
pub record IsContract (crates : Crates) {Chain Provider : Type 0}
    (client : Client crates Chain Provider) (t : DecdnTreasury crates Provider)
    (pool_id : crates.B256) (pool : Chain → Pool crates) : Type 0 where
  pub redeemed_le : (chain : Chain) → (pool chain).total_redeemed ≤ (pool chain).deposit
  pub get_pool-Ends :
      (chain : Chain)
      → Ends
          (λ (p : Pool crates) chain'. (p ≡ pool chain) × (pool chain' ≡ pool chain))
          (λ chain'. pool chain' ≡ pool chain)
          (client.get_pool t.payment_pool t.provider pool_id chain)
  pub allowance-Ends :
      (m : ℕ) (chain : Chain)
      → Ends
          (λ u chain'. pool chain' ≡ pool chain)
          (λ chain'. pool chain' ≡ pool chain)
          (client.ensure_allowance t.provider t.token t.self_address t.payment_pool
            (Option.some m)
            chain)
  pub top_up-Ends :
      (m : ℕ) (chain : Chain)
      → Ends
          (λ (credited : ℕ) chain'.
            pool chain' ≡ record (pool chain) { deposit = (pool chain).deposit + m })
          (λ chain'.
            (pool chain' ≡ pool chain)
            ⊎ (pool chain' ≡ record (pool chain) { deposit = (pool chain).deposit + m }))
          (client.top_up t.payment_pool t.provider pool_id m chain)

module _ (crates : Crates) {Chain Provider : Type 0} (client : Client crates Chain Provider)
    (t : DecdnTreasury crates Provider) (pool_id : crates.B256) (pool : Chain → Pool crates)
    (contract : IsContract crates client t pool_id pool) where
  open contract use {redeemed_le, get_pool-Ends, allowance-Ends, top_up-Ends}

  abbrev pub balance : Chain → ℕ
  balance chain = (pool chain).deposit - (pool chain).total_redeemed

  same_balance : (c c' : Chain) → pool c' ≡ pool c → balance c' ≡ balance c
  same_balance c c' h = ap (λ (p : Pool crates). p.deposit - p.total_redeemed) h

  deposited :
      (m : ℕ) (c c' : Chain)
      → pool c' ≡ record (pool c) { deposit = (pool c).deposit + m }
      → balance c' ≡ balance c + m
  deposited m c c' h =
      let le = redeemed_le c in
      ap (λ (p : Pool crates). p.deposit - p.total_redeemed) h ∙ (omega arith)

  -- The transaction, after an allowance that left the pool as it was.
  sent-Ends :
      (m : ℕ) (chain c1 : Chain)
      → pool c1 ≡ pool chain
      → Ends
          (λ (n : ℕ) c'. balance c' ≡ balance chain + m)
          (λ c'. (balance c' ≡ balance chain) ⊎ (balance c' ≡ balance chain + m))
          (client.top_up t.payment_pool t.provider pool_id m c1)
  sent-Ends m chain c1 h =
      let same = same_balance chain c1 h in
      Ends-map _ (λ (n : ℕ) c'. balance c' ≡ balance chain + m) _
        (λ c'. (balance c' ≡ balance chain) ⊎ (balance c' ≡ balance chain + m)) _
        (λ n c' e. let d = deposited m c1 c' e in omega arith)
        (λ c' o. elim o [
          | inl e ↦ inl (same_balance c1 c' e ∙ same)
          | inr e ↦ let d = deposited m c1 c' e in inr (omega arith)
        ])
        (top_up-Ends m c1)

  -- The calls of DecdnTreasury keep the promise, where the contract does.
  pub as_treasury-IsPool : IsPool crates (as_treasury crates client t) pool_id balance
  unfolding remaining top_up
  as_treasury-IsPool = record {
    reports = λ chain.
        Ends-then (λ (p : Pool crates) c'. (p ≡ pool chain) × (balance c' ≡ balance chain)) _ _
          (client.get_pool t.payment_pool t.provider pool_id) _ chain
          (Ends-map (λ (p : Pool crates) c'. (p ≡ pool chain) × (pool c' ≡ pool chain))
            (λ (p : Pool crates) c'. (p ≡ pool chain) × (balance c' ≡ balance chain))
            (λ c'. pool c' ≡ pool chain) (λ c'. balance c' ≡ balance chain) _
            (λ p c' (e, h). (e, same_balance chain c' h)) (λ c' h. same_balance chain c' h)
            (get_pool-Ends chain))
          (λ p c' (e, h). (ap (λ (q : Pool crates). q.deposit - q.total_redeemed) e, h));
    adds = λ m chain.
        Ends-then (λ u c'. pool c' ≡ pool chain) _ _
          (client.ensure_allowance t.provider t.token t.self_address t.payment_pool
            (Option.some m.micros))
          _ chain
          (Ends-map (λ u c'. pool c' ≡ pool chain) (λ u c'. pool c' ≡ pool chain)
            (λ c'. pool c' ≡ pool chain)
            (λ c'. (balance c' ≡ balance chain) ⊎ (balance c' ≡ balance chain + m.micros)) _
            (λ u c' h. h) (λ c' h. inl (same_balance chain c' h)) (allowance-Ends m.micros chain))
          (λ u c1 h.
            Ends-then (λ (n : ℕ) c'. balance c' ≡ balance chain + m.micros) _ _
              (client.top_up t.payment_pool t.provider pool_id m.micros) _ c1
              (sent-Ends m.micros chain c1 h) (λ n c' e. e));
  }
