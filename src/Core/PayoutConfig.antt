-- ===== src/Core/PayoutConfig.antt =====
-- The configuration types of payout.rs, which a plan carries.
use propfirm_engine.Base.{ℕ, List, Option, none, some, ◌*◌}
use propfirm_engine.Core.Ids.{nanos_per_day}

pub data PayoutCycle : Type 0 where
  on_demand bi_weekly monthly : PayoutCycle

-- A `Duration`, in nanoseconds.
unfoldable pub min_gap : PayoutCycle → Option ℕ
min_gap on_demand = none
min_gap bi_weekly = some (14 * nanos_per_day)
min_gap monthly = some (30 * nanos_per_day)

pub record QualifyingDaysConfig (D : Type 0) : Type 0 where
  pub min_days : ℕ
  pub min_pnl_per_day : D

pub record SplitTier (D : Type 0) : Type 0 where
  pub trader_share : D

pub record PayoutConfig (D : Type 0) : Type 0 where
  pub minimum_payout : D
  pub cycle : PayoutCycle
  pub tiers : List (SplitTier D)
  pub qualifying_days : Option (QualifyingDaysConfig D)
