-- ===== src/Server/Treasury/Laws.antt =====
-- Amounts that the treasury reports.
use sponsor.Common.{ℕ, ◌-◌, ◌≡◌, refl, some, String, arith, min, ◌⊎◌, inl, inr}
use sponsor.Common.Result.{Result, ok, err}
use sponsor.Common.Action.{Ends, Ends-bind}
use sponsor.Common.Words.{u64_max}
use sponsor.Crates.{Crates}
use sponsor.Server.Money.{MicroUsdc}
use sponsor.Server.Treasury.{Client, DecdnTreasury, Pool, u64_or_max, remaining, top_up}

u64_or_max-eq-min : (n : ℕ) → u64_or_max n ≡ min n u64_max
unfolding u64_or_max
u64_or_max-eq-min n = ground arith

module _ (crates : Crates) {Chain Provider : Type 0} (client : Client crates Chain Provider)
    (t : DecdnTreasury crates Provider) (pool_id : crates.B256) where
  open client use {get_pool, ensure_allowance}

  -- `remaining` reads the pool once and reports what the deposit exceeds the redeemed total by, or
  -- 0; it changes nothing but by this call.
  pub remaining-Ends :
      (chain : Chain)
      → Ends
          (λ (m : MicroUsdc) chain'.
            (pool : Pool crates) × ((get_pool t.payment_pool t.provider pool_id chain).0 ≡ ok pool)
            × (m.micros ≡ pool.deposit - pool.total_redeemed)
            × (chain' ≡ (get_pool t.payment_pool t.provider pool_id chain).1))
          (λ chain'. chain' ≡ (get_pool t.payment_pool t.provider pool_id chain).1)
          (remaining crates client t pool_id chain)
  unfolding remaining
  remaining-Ends chain =
      Ends-bind _ _ (get_pool t.payment_pool t.provider pool_id) _ chain
        (λ pool read. (pool, read, refl, refl)) (λ e failed. refl)

  abbrev pub allowed : MicroUsdc → Chain → Result (Unit {0}) × Chain
  allowed additional =
      ensure_allowance t.provider t.token t.self_address t.payment_pool (some additional.micros)

  abbrev pub sent : MicroUsdc → Chain → Result ℕ × Chain
  sent additional chain =
      client.top_up t.payment_pool t.provider pool_id additional.micros (allowed additional chain).1

  -- `top_up` asks for an allowance of exactly its amount first and sends nothing where that fails;
  -- it reports the credited amount, or the largest 64-bit number for a larger one.
  pub top_up-Ends :
      (additional : MicroUsdc) (chain : Chain)
      → Ends
          (λ (m : MicroUsdc) chain'.
            (credited : ℕ) × ((allowed additional chain).0 ≡ ok tt)
            × ((sent additional chain).0 ≡ ok credited)
            × (chain' ≡ (sent additional chain).1)
            × (m.micros ≡ min credited u64_max))
          (λ chain'.
            (e : String) × (((allowed additional chain).0 ≡ err e)
                × (chain' ≡ (allowed additional chain).1)
              ⊎ ((allowed additional chain).0 ≡ ok tt)
                × ((sent additional chain).0 ≡ err e)
                × (chain' ≡ (sent additional chain).1)))
          (top_up crates client t pool_id additional chain)
  unfolding top_up
  top_up-Ends additional chain =
      Ends-bind _ _ (allowed additional) _ chain
        (λ u hu.
          Ends-bind _ _ (client.top_up t.payment_pool t.provider pool_id additional.micros) _ _
            (λ credited hc. (credited, hu, hc, refl, u64_or_max-eq-min credited))
            (λ e he. (e, inr (hu, he, refl))))
        (λ e he. (e, inl (he, refl)))
