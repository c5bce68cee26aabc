-- ===== src/Server/PoolWatch/Level.antt =====
-- What the loop of crates/server/src/pool_watch.rs makes of the pool's balance.
use sponsor.Common.{
  ℕ, ◌+◌, ◌<◌, ◌≤◌, ◌≡◌, refl, true, false, List, [], ◌∷◌, arith, subst, sym, ◌⊎◌, inl, inr,
  Bool-cases,
}
use sponsor.Common.Result.{Result, ok, err}
use sponsor.Common.Action.{Ends}
use sponsor.Crates.{Crates}
use sponsor.Server.Money.{MicroUsdc}
use sponsor.Server.Treasury.{Treasury, Client, DecdnTreasury, Pool, as_treasury}
use sponsor.Server.Treasury.Contract.{IsPool, IsContract, balance, as_treasury-IsPool}
use sponsor.Server.PoolWatch.{
  Tick, topped_up, top_up_failed, read_failed, idle, tick, run, refill_if_low, credited,
  needs_refill,
}

-- What the rounds that were logged as done could add at most.
unfoldable pub addable : ℕ → List Tick → ℕ
addable refill [] = 0
addable refill (topped_up remaining credited ∷ ts) = refill + addable refill ts
addable refill (idle ∷ ts) = refill + addable refill ts
addable refill (top_up_failed ∷ ts) = addable refill ts
addable refill (read_failed ∷ ts) = addable refill ts

-- Between the rounds clients redeem, in all no more than `total`.
unfoldable pub Redeems : {Chain : Type 0} → (Chain → ℕ) → List (Chain → Chain) → ℕ → Type 0
Redeems balance [] total = Unit {0}
Redeems {Chain} balance (drift ∷ drifts) total =
    (r : ℕ) × (rest : ℕ) × (r + rest ≤ total)
    × ((chain : Chain)
        → balance (drift chain) ≤ balance chain × balance chain ≤ balance (drift chain) + r)
    × Redeems balance drifts rest

-- The balance before and after, with the mark, the refill, what was redeemed and what could be added.
pub record Level (low refill before after total added : ℕ) : Type 0 where
  pub capped : (after ≤ before) ⊎ (after < low + refill)
  pub filled : (low ≤ after + total) ⊎ (before + added ≤ after + total)

module _ (crates : Crates) {Chain : Type 0} (treasury : Treasury crates Chain)
    (low_water refill : MicroUsdc) (pool_id : crates.B256) (balance : Chain → ℕ)
    (pool : IsPool crates treasury pool_id balance) where
  abbrev low : ℕ
  low = low_water.micros

  abbrev more : ℕ
  more = refill.micros

  -- A top-up below the mark, with the balance that it started from.
  added-Level :
      (remaining : MicroUsdc) (r : Result MicroUsdc) (chain chain' end : Chain)
      → balance chain' ≡ balance chain
      → balance chain < low
      → Ends
          (λ (c : MicroUsdc) e. balance e ≡ balance chain' + more)
          (λ e. (balance e ≡ balance chain') ⊎ (balance e ≡ balance chain' + more))
          (r, end)
      → Level low more
          (balance chain)
          (balance end)
          0
          (addable more (credited crates treasury remaining r ∷ []))
  unfolding addable
  added-Level remaining (ok c) chain chain' end same below h = record {
    capped = inr (omega arith);
    filled = inr (omega arith);
  }
  added-Level remaining (err e) chain chain' end same below (inl h) = record {
    capped = inl (omega arith);
    filled = inr (omega arith);
  }
  added-Level remaining (err e) chain chain' end same below (inr h) = record {
    capped = inr (omega arith);
    filled = inr (omega arith);
  }

  -- A sum of the refills of the rounds that were done.
  addable-cons :
      (t : Tick) (ts : List Tick) → addable more (t ∷ ts) ≡ addable more (t ∷ []) + addable more ts
  unfolding addable
  addable-cons (topped_up r c) ts = omega arith
  addable-cons top_up_failed ts = omega arith
  addable-cons read_failed ts = omega arith
  addable-cons idle ts = omega arith

  needs_refill_iff :
      (n : ℕ) → ((needs_refill n low ≡ true) → n < low) × ((needs_refill n low ≡ false) → low ≤ n)
  unfolding needs_refill
  needs_refill_iff n = ground arith

  -- A round that did not send anything, and that failed or found enough.
  still-Level :
      (t : Tick) (before after : ℕ)
      → after ≡ before
      → (addable more (t ∷ []) ≡ 0) ⊎ (low ≤ before)
      → Level low more before after 0 (addable more (t ∷ []))
  still-Level t before after same (inl e) = record {
    capped = inl (omega arith);
    filled = inr (omega arith);
  }
  still-Level t before after same (inr e) = record {
    capped = inl (omega arith);
    filled = inl (omega arith);
  }

  round-Level :
      (r : Result MicroUsdc) (chain chain' : Chain)
      → Ends
          (λ (m : MicroUsdc) c'. (m.micros ≡ balance chain) × (balance c' ≡ balance chain))
          (λ c'. balance c' ≡ balance chain)
          (r, chain')
      → let (t, end) = refill_if_low crates treasury low_water refill pool_id r chain' in
        Level low more (balance chain) (balance end) 0 (addable more (t ∷ []))
  unfolding addable
  round-Level (err e) chain chain' h = still-Level read_failed _ _ h (inl refl)
  round-Level (ok remaining) chain chain' (read, same) =
      elim (Bool-cases (needs_refill remaining.micros low)) [
        | inl e ↦ rw e (
            let below = (needs_refill_iff remaining.micros).0 e in
            added-Level remaining _ chain chain' _ same (omega arith) (pool.adds refill chain'))
        | inr e ↦ rw e (
            let enough = (needs_refill_iff remaining.micros).1 e in
            still-Level idle _ _ same (inr (omega arith)))
      ]

  tick-Level :
      (chain : Chain)
      → let (t, end) = tick crates treasury low_water refill pool_id chain in
        Level low more (balance chain) (balance end) 0 (addable more (t ∷ []))
  unfolding tick
  tick-Level chain = round-Level (treasury.remaining pool_id chain).0 chain _ (pool.reports chain)

  -- One round behind another.
  Level-then :
      (b0 b1 b2 b3 r rest total a later_added : ℕ)
      → b1 ≤ b0
      → b0 ≤ b1 + r
      → r + rest ≤ total
      → Level low more b1 b2 0 a
      → Level low more b2 b3 rest later_added
      → Level low more b0 b3 total (a + later_added)
  Level-then b0 b1 b2 b3 r rest total a later_added drained at_most within first later =
      let f1 = first.capped in
      let f2 = first.filled in
      let l1 = later.capped in
      let l2 = later.filled in record { capped = omega arith; filled = omega arith }

  -- Any number of rounds, with what clients redeem between them.
  pub run-Level :
      (drifts : List (Chain → Chain)) (total : ℕ) (chain : Chain)
      → Redeems balance drifts total
      → let (log, end) = run crates treasury low_water refill pool_id drifts chain in
        Level low more (balance chain) (balance end) total (addable more log)
  unfolding run Redeems addable
  run-Level [] total chain h = record { capped = inl (omega arith); filled = inr (omega arith) }
  run-Level (drift ∷ drifts) total chain (r, rest, within, bounds, later) =
      let before = bounds chain in
      let (t, next) = tick crates treasury low_water refill pool_id (drift chain) in
      let rounds = run crates treasury low_water refill pool_id drifts next in
      subst (λ a. Level low more (balance chain) (balance rounds.1) total a)
        (sym (addable-cons t rounds.0))
        (Level-then _ _ _ _ r rest total _ _ before.0 before.1 within (tick-Level (drift chain))
          (run-Level drifts rest next later))

-- The watcher with DecdnTreasury, over the contract.
module _ (crates : Crates) {Chain Provider : Type 0} (client : Client crates Chain Provider)
    (t : DecdnTreasury crates Provider) (low_water refill : MicroUsdc) (pool_id : crates.B256)
    (pool : Chain → Pool crates) (contract : IsContract crates client t pool_id pool) where
  abbrev pub left_over : Chain → ℕ
  left_over = balance crates client t pool_id pool contract

  -- For the treasury in front of a payment pool whose contract adds what is sent, with any number
  -- of rounds of the pool watcher, the balance only falling between them, by at most a total, and
  -- any calls failing: afterwards the pool holds no more than before or less than the low-water
  -- mark and one refill together; and what it holds with that total reaches the mark, or reaches
  -- what it held before with one refill for each round that did not fail.
  pub run-contract :
      (drifts : List (Chain → Chain)) (total : ℕ) (chain : Chain)
      → Redeems left_over drifts total
      → let (log, end) =
          run crates (as_treasury crates client t) low_water refill pool_id drifts chain in
        Level low_water.micros refill.micros
          (left_over chain)
          (left_over end)
          total
          (addable refill.micros log)
  run-contract =
      run-Level crates (as_treasury crates client t) low_water refill pool_id left_over
        (as_treasury-IsPool crates client t pool_id pool contract)
