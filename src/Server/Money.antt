-- ===== src/Server/Money.antt =====
-- crates/server/src/money.rs
use sponsor.Common.{ℕ, ◌+◌, ◌≡◌, min, arith}
use sponsor.Common.Words
use sponsor.Common.Words.{u64_max, IsU64}

-- `MicroUsdc(pub u64)`
pub record MicroUsdc : Type 0 where
  pub micros : ℕ

-- MicroUsdc::saturating_add
unfoldable pub saturating_add : MicroUsdc → MicroUsdc → MicroUsdc
saturating_add a b = record { micros = Words.saturating_add a.micros b.micros }

-- The sum of two amounts is the exact one, or the largest 64-bit number where that is less.
saturating_add-eq-min :
    (a b : MicroUsdc) → (saturating_add a b).micros ≡ min (a.micros + b.micros) u64_max
unfolding saturating_add Words.saturating_add
saturating_add-eq-min a b = ground arith
