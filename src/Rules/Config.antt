-- ===== src/Rules/Config.antt =====
-- config/rule_config.rs: the configuration of each rule, and what a plan makes of it.
use propfirm_engine.Base.{ℕ, Bool, true, Option, none, some, if◌then◌else◌, ltb}
use propfirm_engine.Decimal.{Decimal}
use propfirm_engine.Core.Plan.{ChallengePlan}

pub record DailyDrawdownConfig (D : Type 0) : Type 0 where
  pub pct : D
  pub on_balance : Bool

pub record MaxDrawdownConfig (D : Type 0) : Type 0 where
  pub pct : D
  pub on_balance : Bool

pub record TrailingDrawdownConfig (D : Type 0) : Type 0 where
  pub pct : D
  pub start_at_pct : D

pub record ProfitTargetConfig (D : Type 0) : Type 0 where
  pub pct : D

pub record MinTradingDaysConfig : Type 0 where
  pub days : ℕ

pub record ConsistencyConfig (D : Type 0) : Type 0 where
  pub max_day_profit_share : D

pub record NewsTradingConfig : Type 0 where
  pub window_minutes : ℕ
  pub allow_closes : Bool

pub record OvernightConfig : Type 0 where
  pub forbidden_from_hour : ℕ
  pub forbidden_to_hour : ℕ

pub record WeekendConfig : Type 0 where
  pub forbidden_from_hour : ℕ
  pub weekend_starts_hour : ℕ

pub record MaxPositionSizeConfig (D : Type 0) : Type 0 where
  pub max_lots_per_order : D

pub record MaxOpenPositionsConfig : Type 0 where
  pub max_count : ℕ

pub record MaxDailyTradesConfig : Type 0 where
  pub max_count : ℕ

pub record TimeLimitConfig : Type 0 where
  pub days : ℕ

pub record CooldownConfig : Type 0 where
  pub seconds_between_trades : ℕ

pub record HedgingConfig : Type 0 where
  pub allowed : Bool

pub record GridTradingConfig : Type 0 where
  pub allowed : Bool
  pub min_grid_spacing_pips : ℕ

pub record CopyTradingConfig : Type 0 where
  pub allowed : Bool

pub record StopLossRequiredConfig : Type 0 where
  pub required : Bool
  pub min_distance_pips : Option ℕ

pub record TakeProfitRequiredConfig : Type 0 where
  pub required : Bool

pub record RuleConfig (D : Type 0) : Type 0 where
  pub daily_drawdown : Option (DailyDrawdownConfig D)
  pub max_drawdown : Option (MaxDrawdownConfig D)
  pub trailing_drawdown : Option (TrailingDrawdownConfig D)
  pub profit_target : Option (ProfitTargetConfig D)
  pub min_trading_days : Option MinTradingDaysConfig
  pub consistency : Option (ConsistencyConfig D)
  pub news_trading : Option NewsTradingConfig
  pub overnight_holding : Option OvernightConfig
  pub weekend_holding : Option WeekendConfig
  pub max_position_size : Option (MaxPositionSizeConfig D)
  pub max_open_positions : Option MaxOpenPositionsConfig
  pub max_daily_trades : Option MaxDailyTradesConfig
  pub time_limit : Option TimeLimitConfig
  pub cooldown : Option CooldownConfig
  pub hedging : Option HedgingConfig
  pub grid_trading : Option GridTradingConfig
  pub copy_trading : Option CopyTradingConfig
  pub sl_required : Option StopLossRequiredConfig
  pub tp_required : Option TakeProfitRequiredConfig

abbrev pub empty : {D : Type 0} → RuleConfig D
empty = record {
  daily_drawdown = none;
  max_drawdown = none;
  trailing_drawdown = none;
  profit_target = none;
  min_trading_days = none;
  consistency = none;
  news_trading = none;
  overnight_holding = none;
  weekend_holding = none;
  max_position_size = none;
  max_open_positions = none;
  max_daily_trades = none;
  time_limit = none;
  cooldown = none;
  hedging = none;
  grid_trading = none;
  copy_trading = none;
  sl_required = none;
  tp_required = none;
}

-- `if let Some(x) = value { field = Some(make(x)) }` on a field that is empty.
abbrev if_some : {A B : Type 0} → Option A → (A → B) → Option B
if_some none make = none
if_some (some a) make = some (make a)

module _ {D : Type 0} ⦃d : Decimal D⦄ where
  unfoldable pub from_plan : ChallengePlan D → RuleConfig D
  from_plan plan = record {
    daily_drawdown =
        some (record { pct = plan.max_daily_drawdown_pct; on_balance = plan.drawdown_on_balance });
    max_drawdown =
        some (record { pct = plan.max_total_drawdown_pct; on_balance = plan.drawdown_on_balance });
    trailing_drawdown =
        if plan.trailing_drawdown_enabled
        then some (record { pct = plan.trailing_drawdown_pct; start_at_pct = d.nought })
        else none;
    profit_target = some (record { pct = plan.profit_target_pct });
    min_trading_days = some (record { days = plan.min_trading_days });
    consistency = if_some plan.consistency_pct (λ c. record { max_day_profit_share = c });
    news_trading = some (record { window_minutes = 2; allow_closes = true });
    overnight_holding = some (record { forbidden_from_hour = 22; forbidden_to_hour = 7 });
    weekend_holding = some (record { forbidden_from_hour = 21; weekend_starts_hour = 21 });
    max_position_size = if_some plan.max_position_lots (λ l. record { max_lots_per_order = l });
    max_open_positions = if_some plan.max_open_positions (λ c. record { max_count = c });
    max_daily_trades = if_some plan.max_daily_trades (λ c. record { max_count = c });
    time_limit = if_some plan.time_limit_days (λ n. record { days = n });
    cooldown =
        if ltb 0 plan.cooldown_seconds
        then some (record { seconds_between_trades = plan.cooldown_seconds })
        else none;
    hedging = some (record { allowed = plan.hedging_allowed });
    grid_trading =
        some (record { allowed = plan.grid_trading_allowed; min_grid_spacing_pips = 50 });
    copy_trading = some (record { allowed = plan.copy_trading_allowed });
    sl_required = some (record { required = plan.require_stop_loss; min_distance_pips = none });
    tp_required = some (record { required = plan.require_take_profit });
  }
