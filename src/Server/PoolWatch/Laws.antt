-- ===== src/Server/PoolWatch/Laws.antt =====
-- When the sweep tops up, and by how much.
use sponsor.Common.{◌≡◌, ◌≢◌, refl, ◌<◌, ◌≤◌, String, arith, lt→ltb}
use sponsor.Common.Result.{Result, ok, err}
use sponsor.Crates.{Crates}
use sponsor.Server.Money.{MicroUsdc}
use sponsor.Server.Treasury.{Treasury}
use sponsor.Server.PoolWatch.{Tick, read_failed, idle, credited, tick}

module _ (crates : Crates) {Chain : Type 0} (treasury : Treasury crates Chain)
    (low_water refill : MicroUsdc) (pool_id : crates.B256) where
  abbrev after_read : Chain → Chain
  after_read chain = (treasury.remaining pool_id chain).1

  abbrev after_top_up : Chain → Chain
  after_top_up chain = (treasury.top_up pool_id refill (after_read chain)).1

  -- What one tick does: it tops up by the refill amount exactly when the balance that it read is
  -- below the mark, and does nothing else to the chain; a failed call ends only its own tick.
  pub record TickSpec (chain : Chain) (logged : Tick) (chain' : Chain) : Type 0 where
    pub on_low :
        (remaining : MicroUsdc)
        → (treasury.remaining pool_id chain).0 ≡ ok remaining
        → remaining.micros < low_water.micros
        → (chain' ≡ after_top_up chain) × (logged ≢ idle) × (logged ≢ read_failed)
    pub on_enough :
        (remaining : MicroUsdc)
        → (treasury.remaining pool_id chain).0 ≡ ok remaining
        → low_water.micros ≤ remaining.micros
        → (chain' ≡ after_read chain) × (logged ≡ idle)
    pub on_error :
        (e : String)
        → (treasury.remaining pool_id chain).0 ≡ err e
        → (chain' ≡ after_read chain) × (logged ≡ read_failed)

  credited-ne_idle :
      (remaining : MicroUsdc) (added : Result MicroUsdc)
      → (credited crates treasury remaining added ≢ idle)
        × (credited crates treasury remaining added ≢ read_failed)
  credited-ne_idle remaining (ok c) = ((λ e. cc), λ e. cc)
  credited-ne_idle remaining (err x) = ((λ e. cc), λ e. cc)

  -- One round of the pool watcher tops the pool up by the refill amount when the remaining deposit
  -- is below the low-water mark, sends nothing when it is not or when the reading fails, and logs
  -- which it was.
  pub tick-TickSpec :
      (chain : Chain)
      → TickSpec chain
          (tick crates treasury low_water refill pool_id chain).0
          (tick crates treasury low_water refill pool_id chain).1
  unfolding tick
  tick-TickSpec chain = record {
    on_low = λ remaining read low.
        let (a, b) =
          credited-ne_idle remaining (treasury.top_up pool_id refill (after_read chain)).0 in
        rw (read, lt→ltb _ _ low) (refl, a, b);
    on_enough = λ remaining read enough. rw read (ground arith);
    on_error = λ e read. rw read (refl, refl);
  }
