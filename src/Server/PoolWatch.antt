-- ===== src/Server/PoolWatch.antt =====
-- crates/server/src/pool_watch.rs: the sweep that tops the pool up below its low-water mark.
pub mod Level
pub mod Laws
use sponsor.Common.{ℕ, Bool, List, [], ◌∷◌, ltb, if◌then◌else◌}
use sponsor.Common.Result.{Result, ok, err}
use sponsor.Crates.{Crates}
use sponsor.Server.Money.{MicroUsdc}
use sponsor.Server.Treasury.{Treasury}

-- needs_refill
unfoldable pub needs_refill : ℕ → ℕ → Bool
needs_refill remaining low_water = ltb remaining low_water

-- What one tick logged.
pub data Tick : Type 0 where
  topped_up : (remaining credited : ℕ) → Tick
  top_up_failed read_failed idle : Tick

module _ (crates : Crates) {Chain : Type 0} (treasury : Treasury crates Chain) where
  open crates use {B256}

  abbrev credited : MicroUsdc → Result MicroUsdc → Tick
  credited remaining (ok c) = topped_up remaining.micros c.micros
  credited remaining (err e) = top_up_failed

  abbrev refill_if_low : MicroUsdc → MicroUsdc → B256 → Result MicroUsdc → Chain → Tick × Chain
  refill_if_low low_water refill pool_id (err e) chain = (read_failed, chain)
  refill_if_low low_water refill pool_id (ok remaining) chain =
      if needs_refill remaining.micros low_water.micros
      then (let (added, chain') = treasury.top_up pool_id refill chain in
          (credited remaining added, chain'))
      else (idle, chain)

  -- The body of the loop in `run`, after the tick.
  unfoldable pub tick : MicroUsdc → MicroUsdc → B256 → Chain → Tick × Chain
  unfolding needs_refill
  tick low_water refill pool_id chain =
      let (read, chain') = treasury.remaining pool_id chain in
      refill_if_low low_water refill pool_id read chain'

  -- `run`: the loop has no end. Between two ticks the chain moves by itself; here are the ticks of
  -- the first rounds, one for each such move.
  unfoldable pub run :
      MicroUsdc → MicroUsdc → B256 → List (Chain → Chain) → Chain → List Tick × Chain
  run low_water refill pool_id [] chain = ([], chain)
  run low_water refill pool_id (drift ∷ rest) chain =
      let (t, chain') = tick low_water refill pool_id (drift chain) in
      let (ts, chain'') = run low_water refill pool_id rest chain' in (t ∷ ts, chain'')
