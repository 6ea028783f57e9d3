-- ===== src/Fixtures.antt =====
-- Concrete data for tests and witnesses: a funded and a challenge account on the scaled decimals.
use propfirm_engine.Base.{
  ℕ, ◌*◌, ◌+◌, true, false, [], ◌∷◌, none, some, Result, ok, err, is_ok, ◌≡◌, refl, arith,
}
use propfirm_engine.Base.Int.{pos}
use propfirm_engine.Decimal.Scaled.{Scaled, scaled_decimal}
use propfirm_engine.Core.Ids.{Timestamp, nanos_per_day, nanos_per_hour, nanos_per_minute}
use propfirm_engine.Core.Calendar.{Calendar, utc_calendar}
use propfirm_engine.Core.PayoutConfig.{PayoutConfig, bi_weekly}
use propfirm_engine.Core.Plan.{
  ChallengePlan, ChallengePhase, LossReference, DailyLossType, ConsistencyType,
}
use propfirm_engine.Core.Account.{Account, AccountStatus, AccountType}
use propfirm_engine.Core.Trading.{
  PositionSide, PositionStatus, Position, Tick, Trade, OrderSide, TradeSide,
}
use propfirm_engine.Core.Violation.{Violation, ViolationKind, ViolationSeverity}

instance abbrev pub calendar : Calendar
calendar = utc_calendar

-- An amount of money, and a number of hundredths.
abbrev pub money : ℕ → Scaled
money n = pos (n * 10000)

abbrev pub cents : ℕ → Scaled
cents n = pos (n * 100)

abbrev pub noon : ℕ → Timestamp
noon day = day * nanos_per_day + 12 * nanos_per_hour

abbrev pub payout_terms : PayoutConfig Scaled
payout_terms = record {
  minimum_payout = money 100;
  cycle = bi_weekly;
  tiers = record { trader_share = cents 80 } ∷ record { trader_share = cents 90 } ∷ [];
  qualifying_days = none;
}

abbrev pub plan : ChallengePlan Scaled
plan = record {
  id = 7;
  phase = ChallengePhase.phase1;
  initial_balance_money = money 100000;
  profit_target_pct = cents 8;
  max_daily_drawdown_pct = cents 5;
  max_total_drawdown_pct = cents 10;
  max_loss_reference = LossReference.static;
  drawdown_on_balance = false;
  trailing_drawdown_enabled = false;
  trailing_drawdown_pct = money 0;
  min_trading_days = 2;
  time_limit_days = some 30;
  max_position_lots = none;
  max_total_lots = none;
  max_open_positions = none;
  max_daily_trades = none;
  news_trading_allowed = true;
  overnight_holding_allowed = true;
  weekend_holding_allowed = true;
  hedging_allowed = true;
  grid_trading_allowed = true;
  require_stop_loss = false;
  require_take_profit = false;
  consistency_pct = none;
  cooldown_seconds = 0;
  copy_trading_allowed = true;
  refundable = true;
  leverage = 100;
  trading_hours = none;
  timezone = none;
  day_reset_time = 0;
  per_trade_max_loss_pct = none;
  per_trade_max_loss_money = none;
  hft_ban_enabled = false;
  hft_min_round_trip_seconds = 60;
  inactivity_days = none;
  refund_fee_amount = money 500;
  daily_loss_type = DailyLossType.pct_prior_day;
  daily_loss_soft = false;
  consistency_type = ConsistencyType.no_rule;
  eod_trail_locks_at_start = false;
  min_profitable_days = none;
  cross_account_hedging_prohibited = false;
  lowcap_exposure_limit_pct = none;
  consistency_applies_on_funded_stage = false;
  qualifying_day_threshold_pct = none;
  qualifying_day_pnl_band_pct = none;
  payout_config = some payout_terms;
}

-- A challenge account on day 10 of the calendar, started, with profit.
abbrev pub account : Account Scaled
account = record {
  id = 1;
  account_type = AccountType.phase1;
  status = AccountStatus.active;
  challenge_id = some 7;
  plan = plan;
  tenant_id = 2;
  initial_balance = money 100000;
  balance = money 100000;
  equity = money 100000;
  estimated_equity = money 100000;
  estimated_balance = money 100000;
  peak_equity = money 100000;
  peak_balance = money 100000;
  started_at = some (noon 10);
  deadline = some (noon 40);
  day_start_balance = money 100000;
  trading_day_index = 0;
  active_trading_days = 1;
  day_counted_today = true;
  today_realized_pnl = money 0;
  total_realized_pnl = money 0;
  total_commissions = money 0;
  total_swaps = money 0;
  largest_day_profit = money 0;
  largest_day_loss = money 0;
  sum_positive_days_profit = money 0;
  day_start_equity = money 100000;
  intraday_peak_equity = money 100000;
  profitable_days_count = 0;
  qualifying_trading_days_count = 0;
  current_trading_day_start = some (10 * nanos_per_day);
  target_reached_at = none;
  target_reached_on_day = none;
  version = 0;
  last_tick_ts = some (noon 10);
  last_trade_at = none;
  payout_count = 0;
  balance_at_last_payout = money 100000;
  last_payout_at = none;
  refund_used = false;
  status_before_breach = none;
  open_positions = [];
  today_trades = [];
}

-- The account of a funded trader whose balance has grown by 10000.
abbrev pub funded_account : Account Scaled
funded_account = record account {
  plan = record plan { phase = ChallengePhase.funded };
  account_type = AccountType.funded;
  status = AccountStatus.funded;
  balance = money 110000;
  equity = money 110000;
}

abbrev pub quote : Timestamp → Tick Scaled
quote ts = record {
  symbol = "EURUSD";
  quote = record { bid = money 1; ask = money 1; ts = ts };
  last = none;
  bid_volume = none;
  ask_volume = none;
}

abbrev pub violation : ViolationSeverity → Violation Scaled
violation severity = record {
  id = 5;
  account_id = 1;
  tenant_id = 2;
  rule_name = "Maximum Drawdown";
  kind = ViolationKind.max_drawdown;
  severity = severity;
  occurred_at = noon 10;
  breach_value = none;
  threshold_value = none;
  utilization = none;
}

-- The fill of a closing order, which realized a profit of 250 at a commission of 7.
abbrev pub closing_trade : Trade Scaled
closing_trade = record {
  id = 21;
  order_id = 22;
  account_id = 1;
  symbol = "EURUSD";
  side = OrderSide.sell;
  trade_side = TradeSide.exit;
  price = money 1;
  quantity = money 1000;
  commission = money 7;
  swap = money 0;
  executed_at = noon 10 + nanos_per_minute;
  exit_info = some (record {
    position_id = 31;
    realized_pnl = money 250;
    closed_quantity = money 1000;
    entry_price = money 1;
    exit_price = money 1;
  });
  comment = none;
}

pub no_truth : false ≡ true → ⊥
no_truth h = ground arith

-- The value of a result that succeeds.
abbrev pub value {ℓ} : {A : Type ℓ} (r : Result A) → is_ok r ≡ true → A
value (ok a) h = a
value (err e) h = absurd (no_truth h)

pub value_lem {ℓ} : {A : Type ℓ} (r : Result A) (h : is_ok r ≡ true) → r ≡ ok (value r h)
value_lem (ok a) h = refl
value_lem (err e) h = absurd (ground arith)

abbrev pub long_position : Position Scaled
long_position = record {
  id = 31;
  account_id = 1;
  symbol = "EURUSD";
  side = PositionSide.long;
  opened_at = noon 10;
  closed_at = none;
  status = PositionStatus.opened;
  avg_entry_price = money 1;
  opened_quantity = money 1000;
  open_quantity = money 1000;
  realized_pnl = money 0;
  commission = money 0;
  swap = money 0;
  stop_loss = none;
  take_profit = none;
  magic = none;
  comment = none;
}
