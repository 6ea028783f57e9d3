-- ===== src/Core/Plan.antt =====
-- config/plan.rs: the challenge plan, its validation and its trading days. `PlanMeta`, which is
-- text for display, and `effective_at` are left out.
use propfirm_engine.Base.{
  ℕ, ◌-◌, Bool, false, ◌||◌, Option, none, some, ltb, leb, if◌then◌else◌, Result, ok,
  invalid_config, refuse_if, ◌>>◌,
}
use propfirm_engine.Base.Int.{pos}
use propfirm_engine.Decimal.{Decimal}
use propfirm_engine.Core.Ids.{Uuid, Timestamp, nanos_per_day}
use propfirm_engine.Core.Calendar.{Calendar, Tz}
use propfirm_engine.Core.PayoutConfig.{PayoutConfig}

pub data ChallengePhase : Type 0 where
  phase1 phase2 funded : ChallengePhase

pub data LossReference : Type 0 where
  static trailing eod_trailing intraday_trail : LossReference

pub data DailyLossType : Type 0 where
  no_limit pct_initial pct_prior_day trailing_intraday_high : DailyLossType

pub data ConsistencyType : Type 0 where
  no_rule best_day_pct_of_total best_day_pct_of_positive_days : ConsistencyType

pub record ChallengePlan (D : Type 0) : Type 0 where
  pub id : Uuid
  pub phase : ChallengePhase
  pub initial_balance_money : D
  pub profit_target_pct : D
  pub max_daily_drawdown_pct : D
  pub max_total_drawdown_pct : D
  pub max_loss_reference : LossReference
  pub drawdown_on_balance : Bool
  pub trailing_drawdown_enabled : Bool
  pub trailing_drawdown_pct : D
  pub min_trading_days : ℕ
  pub time_limit_days : Option ℕ
  pub max_position_lots : Option D
  pub max_total_lots : Option D
  pub max_open_positions : Option ℕ
  pub max_daily_trades : Option ℕ
  pub news_trading_allowed : Bool
  pub overnight_holding_allowed : Bool
  pub weekend_holding_allowed : Bool
  pub hedging_allowed : Bool
  pub grid_trading_allowed : Bool
  pub require_stop_loss : Bool
  pub require_take_profit : Bool
  pub consistency_pct : Option D
  pub cooldown_seconds : ℕ
  pub copy_trading_allowed : Bool
  pub refundable : Bool
  pub leverage : ℕ
  pub trading_hours : Option (ℕ × ℕ)
  pub timezone : Option Tz
  pub day_reset_time : ℕ
  pub per_trade_max_loss_pct : Option D
  pub per_trade_max_loss_money : Option D
  pub hft_ban_enabled : Bool
  pub hft_min_round_trip_seconds : ℕ
  pub inactivity_days : Option ℕ
  pub refund_fee_amount : D
  pub daily_loss_type : DailyLossType
  pub daily_loss_soft : Bool
  pub consistency_type : ConsistencyType
  pub eod_trail_locks_at_start : Bool
  pub min_profitable_days : Option ℕ
  pub cross_account_hedging_prohibited : Bool
  pub lowcap_exposure_limit_pct : Option D
  pub consistency_applies_on_funded_stage : Bool
  pub qualifying_day_threshold_pct : Option D
  pub qualifying_day_pnl_band_pct : Option D
  pub payout_config : Option (PayoutConfig D)

abbrev pub with_phase : {D : Type 0} → ChallengePlan D → ChallengePhase → ChallengePlan D
with_phase plan phase = record plan { phase = phase }

bad_hours : Option (ℕ × ℕ) → Bool
bad_hours none = false
bad_hours (some (s, e)) = ltb 24 s || ltb 24 e

module _ {D : Type 0} ⦃d : Decimal D⦄ where
  open d use {nought, new, lt, le}

  outside_unit : D → Bool
  outside_unit x = lt x nought || lt (new (pos 1) 0) x

  bad_consistency : Option D → Bool
  unfolding outside_unit
  bad_consistency none = false
  bad_consistency (some c) = outside_unit c

  -- `ChallengePlan::validate`
  unfoldable pub validate : ChallengePlan D → Result (Unit {0})
  unfolding outside_unit bad_consistency bad_hours
  validate plan = do
    refuse_if (le plan.initial_balance_money nought) invalid_config
    refuse_if (lt plan.profit_target_pct nought) invalid_config
    refuse_if (outside_unit plan.max_daily_drawdown_pct) invalid_config
    refuse_if (outside_unit plan.max_total_drawdown_pct) invalid_config
    refuse_if (bad_consistency plan.consistency_pct) invalid_config
    refuse_if (bad_hours plan.trading_hours) invalid_config
    ok tt

module _ {D : Type 0} ⦃c : Calendar⦄ where
  -- Both panic on a reset hour past 23; see `IsCalendar`.
  unfoldable pub trading_day_start : ChallengePlan D → Timestamp → Timestamp
  trading_day_start plan now =
      let reset_today = c.reset_on_date plan.timezone plan.day_reset_time now in
      if leb reset_today now then reset_today else reset_today - nanos_per_day

  unfoldable pub next_trading_day_start : ChallengePlan D → Timestamp → Timestamp
  next_trading_day_start plan current_start =
      c.reset_on_next_date plan.timezone plan.day_reset_time current_start
