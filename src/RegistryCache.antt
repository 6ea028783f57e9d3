-- ===== src/RegistryCache.antt =====
-- registry_cache.rs: the registries of plans, kept by a hash of some fields of the plan. The lock
-- of the cache is held for each lookup and each insertion; the calls are one after another.
pub mod Sound
pub mod Stale
mod Examples
use propfirm_engine.Base.{
  ℕ, Bool, not, List, [], ◌∷◌, Option, none, some, is_some, if◌then◌else◌, ◌==◌, keep,
}
use propfirm_engine.Decimal.{Decimal}
use propfirm_engine.Core.Calendar.{Calendar}
use propfirm_engine.Core.Plan.{ChallengePlan, ChallengePhase, LossReference}
use propfirm_engine.Rules.Registry.{RuleRegistry}
use propfirm_engine.Rules.Library.{Outside}
use propfirm_engine.Rules.Defaults.{with_default_rules_for_plan}

-- The fields that are fed to the hasher.
pub record PlanKey (D : Type 0) : Type 0 where
  pub initial_balance_money : D
  pub profit_target_pct : D
  pub max_daily_drawdown_pct : D
  pub max_total_drawdown_pct : D
  pub max_loss_reference : LossReference
  pub drawdown_on_balance : Bool
  pub trailing_drawdown_enabled : Bool
  pub trailing_drawdown_pct : D
  pub min_trading_days : ℕ
  pub time_limit_days : Option ℕ
  pub day_reset_time : ℕ
  pub max_position_lots : Option D
  pub max_total_lots : Option D
  pub max_open_positions : Option ℕ
  pub max_daily_trades : Option ℕ
  pub news_trading_allowed : Bool
  pub overnight_holding_allowed : Bool
  pub weekend_holding_allowed : Bool
  pub hedging_allowed : Bool
  pub grid_trading_allowed : Bool
  pub copy_trading_allowed : Bool
  pub require_stop_loss : Bool
  pub require_take_profit : Bool
  pub consistency_pct : Option D
  pub cooldown_seconds : ℕ
  pub leverage : ℕ
  pub trading_hours : Option (ℕ × ℕ)
  pub per_trade_max_loss_pct : Option D
  pub per_trade_max_loss_money : Option D
  pub hft_ban_enabled : Bool
  pub hft_min_round_trip_seconds : ℕ
  pub inactivity_days : Option ℕ
  pub phase : ChallengePhase
  pub has_timezone : Bool
  pub has_payout_config : Bool
  pub refundable : Bool
  pub refund_fee_amount : D

module _ {D : Type 0} where
  unfoldable pub plan_key : ChallengePlan D → PlanKey D
  plan_key plan = record {
    initial_balance_money = plan.initial_balance_money;
    profit_target_pct = plan.profit_target_pct;
    max_daily_drawdown_pct = plan.max_daily_drawdown_pct;
    max_total_drawdown_pct = plan.max_total_drawdown_pct;
    max_loss_reference = plan.max_loss_reference;
    drawdown_on_balance = plan.drawdown_on_balance;
    trailing_drawdown_enabled = plan.trailing_drawdown_enabled;
    trailing_drawdown_pct = plan.trailing_drawdown_pct;
    min_trading_days = plan.min_trading_days;
    time_limit_days = plan.time_limit_days;
    day_reset_time = plan.day_reset_time;
    max_position_lots = plan.max_position_lots;
    max_total_lots = plan.max_total_lots;
    max_open_positions = plan.max_open_positions;
    max_daily_trades = plan.max_daily_trades;
    news_trading_allowed = plan.news_trading_allowed;
    overnight_holding_allowed = plan.overnight_holding_allowed;
    weekend_holding_allowed = plan.weekend_holding_allowed;
    hedging_allowed = plan.hedging_allowed;
    grid_trading_allowed = plan.grid_trading_allowed;
    copy_trading_allowed = plan.copy_trading_allowed;
    require_stop_loss = plan.require_stop_loss;
    require_take_profit = plan.require_take_profit;
    consistency_pct = plan.consistency_pct;
    cooldown_seconds = plan.cooldown_seconds;
    leverage = plan.leverage;
    trading_hours = plan.trading_hours;
    per_trade_max_loss_pct = plan.per_trade_max_loss_pct;
    per_trade_max_loss_money = plan.per_trade_max_loss_money;
    hft_ban_enabled = plan.hft_ban_enabled;
    hft_min_round_trip_seconds = plan.hft_min_round_trip_seconds;
    inactivity_days = plan.inactivity_days;
    phase = plan.phase;
    has_timezone = is_some plan.timezone;
    has_payout_config = is_some plan.payout_config;
    refundable = plan.refundable;
    refund_fee_amount = plan.refund_fee_amount;
  }

abbrev pub Cache : Type 0 → Type 0
Cache D = List (ℕ × RuleRegistry D)

module _ {D : Type 0} where
  -- The map's `get` and `insert`.
  unfoldable pub lookup : ℕ → Cache D → Option (RuleRegistry D)
  lookup k [] = none
  lookup k ((j, reg) ∷ cache) = let rest = lookup k cache in if j == k then some reg else rest

  unfoldable pub insert : ℕ → RuleRegistry D → Cache D → Cache D
  insert k reg cache = (k, reg) ∷ keep (λ e. not (e.0 == k)) cache

-- `hash` is the `DefaultHasher` of the standard library.
module _ {D : Type 0} ⦃d : Decimal D⦄ ⦃c : Calendar⦄ (outside : Outside D)
    (hash : PlanKey D → ℕ) where
  unfoldable pub plan_cache_key : ChallengePlan D → ℕ
  unfolding plan_key
  plan_cache_key plan = hash (plan_key plan)

  unfoldable pub found_or_built :
      Cache D → ChallengePlan D → Option (RuleRegistry D) → Cache D × RuleRegistry D
  unfolding insert
  found_or_built cache plan (some reg) = (cache, reg)
  found_or_built cache plan none =
      let reg = with_default_rules_for_plan outside plan in
      (insert (plan_cache_key plan) reg cache, reg)

  unfoldable pub get_or_build : Cache D → ChallengePlan D → Cache D × RuleRegistry D
  unfolding found_or_built
  get_or_build cache plan = found_or_built cache plan (lookup (plan_cache_key plan) cache)
