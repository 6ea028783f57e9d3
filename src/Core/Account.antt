-- ===== src/Core/Account.antt =====
-- core/account.rs: the account aggregate and its methods.
use propfirm_engine.Base.{
  ℕ, ◌+◌, ◌*◌, Bool, true, false, ◌&&◌, List, [], Option, none, some, is_some, leb, if◌then◌else◌,
  Result, ok, err, invalid_state,
}
use propfirm_engine.Decimal.{Decimal}
use propfirm_engine.Core.Ids.{Uuid, Timestamp, nanos_per_day}
use propfirm_engine.Core.Calendar.{Calendar}
use propfirm_engine.Core.Trading.{Trade, Position}
use propfirm_engine.Core.Plan.{ChallengePlan, ChallengePhase, LossReference, trading_day_start}

pub data AccountType : Type 0 where
  phase1 phase2 funded demo : AccountType

pub data AccountStatus : Type 0 where
  pending active target_hit_pending passed failed : AccountStatus
  funded payout_pending closed emergency_stopped : AccountStatus

pub data EvaluationMode : Type 0 where
  evaluate skip : EvaluationMode

unfoldable pub is_active : AccountStatus → Bool
is_active active = true
is_active AccountStatus.funded = true
is_active target_hit_pending = true
is_active _ = false

unfoldable pub is_terminal : AccountStatus → Bool
is_terminal passed = true
is_terminal failed = true
is_terminal closed = true
is_terminal emergency_stopped = true
is_terminal _ = false

unfoldable pub is_breach_terminal : AccountStatus → Bool
is_breach_terminal failed = true
is_breach_terminal emergency_stopped = true
is_breach_terminal _ = false

unfoldable pub evaluation_mode : AccountStatus → EvaluationMode
evaluation_mode active = evaluate
evaluation_mode AccountStatus.funded = evaluate
evaluation_mode target_hit_pending = evaluate
evaluation_mode payout_pending = evaluate
evaluation_mode _ = skip

pub record Account (D : Type 0) : Type 0 where
  pub id : Uuid
  pub account_type : AccountType
  pub status : AccountStatus
  pub challenge_id : Option Uuid
  pub plan : ChallengePlan D
  pub tenant_id : Uuid
  pub initial_balance : D
  pub balance : D
  pub equity : D
  pub estimated_equity : D
  pub estimated_balance : D
  pub peak_equity : D
  pub peak_balance : D
  pub started_at : Option Timestamp
  pub deadline : Option Timestamp
  pub day_start_balance : D
  pub trading_day_index : ℕ
  pub active_trading_days : ℕ
  pub day_counted_today : Bool
  pub today_realized_pnl : D
  pub total_realized_pnl : D
  pub total_commissions : D
  pub total_swaps : D
  pub largest_day_profit : D
  pub largest_day_loss : D
  pub sum_positive_days_profit : D
  pub day_start_equity : D
  pub intraday_peak_equity : D
  pub profitable_days_count : ℕ
  pub qualifying_trading_days_count : ℕ
  pub current_trading_day_start : Option Timestamp
  pub target_reached_at : Option Timestamp
  pub target_reached_on_day : Option ℕ
  pub version : ℕ
  pub last_tick_ts : Option Timestamp
  pub last_trade_at : Option Timestamp
  pub payout_count : ℕ
  pub balance_at_last_payout : D
  pub last_payout_at : Option Timestamp
  pub refund_used : Bool
  pub status_before_breach : Option AccountStatus
  pub open_positions : List (Position D)
  pub today_trades : List (Trade D)

abbrev pub type_of_phase : ChallengePhase → AccountType
type_of_phase ChallengePhase.phase1 = phase1
type_of_phase ChallengePhase.phase2 = phase2
type_of_phase ChallengePhase.funded = AccountType.funded

abbrev pub is_pending : AccountStatus → Bool
is_pending pending = true
is_pending _ = false

deadline_after : Timestamp → Option Timestamp → Option ℕ → Option Timestamp
deadline_after at old none = old
deadline_after at old (some days) = some (at + days * nanos_per_day)

module _ {D : Type 0} ⦃c : Calendar⦄ where
  -- `Account::start`
  unfoldable pub start : Account D → Timestamp → Result (Account D)
  unfolding deadline_after
  start a at =
      if is_pending a.status
      then ok (record a {
        status = active;
        started_at = some at;
        current_trading_day_start = some (trading_day_start a.plan at);
        deadline = deadline_after at a.deadline a.plan.time_limit_days;
      })
      else err invalid_state

module _ {D : Type 0} ⦃d : Decimal D⦄ where
  open d use {nought, add, sub, mul, div, max, le, is_zero}

  -- `Account::new`, with the two UUIDs of the account and its tenant.
  unfoldable pub new : Uuid → Uuid → ChallengePlan D → Account D
  new id tenant_id plan =
      let initial = plan.initial_balance_money in
      record {
        id = id;
        account_type = type_of_phase plan.phase;
        status = pending;
        challenge_id = some plan.id;
        plan = plan;
        tenant_id = tenant_id;
        initial_balance = initial;
        balance = initial;
        equity = initial;
        estimated_equity = initial;
        estimated_balance = initial;
        peak_equity = initial;
        peak_balance = initial;
        started_at = none;
        deadline = none;
        day_start_balance = initial;
        trading_day_index = 0;
        active_trading_days = 0;
        day_counted_today = false;
        today_realized_pnl = nought;
        total_realized_pnl = nought;
        total_commissions = nought;
        total_swaps = nought;
        largest_day_profit = nought;
        largest_day_loss = nought;
        sum_positive_days_profit = nought;
        day_start_equity = initial;
        intraday_peak_equity = initial;
        profitable_days_count = 0;
        qualifying_trading_days_count = 0;
        current_trading_day_start = none;
        target_reached_at = none;
        target_reached_on_day = none;
        version = 0;
        last_tick_ts = none;
        last_trade_at = none;
        payout_count = 0;
        balance_at_last_payout = initial;
        last_payout_at = none;
        refund_used = false;
        status_before_breach = none;
        open_positions = [];
        today_trades = [];
      }

  unfoldable pub daily_dd_limit : Account D → D
  daily_dd_limit a =
      mul a.plan.max_daily_drawdown_pct
        (if a.plan.drawdown_on_balance then a.day_start_balance else a.day_start_equity)

  -- `drawdown_on_balance` chooses between the two peaks of an intraday trail.
  abbrev pub intraday_peak : Account D → D
  intraday_peak a = if a.plan.drawdown_on_balance then a.peak_balance else a.peak_equity

  max_dd_limit_static : Account D → D
  max_dd_limit_static a = mul a.plan.max_total_drawdown_pct a.initial_balance

  max_dd_limit_trailing : Account D → D
  max_dd_limit_trailing a = mul a.plan.max_total_drawdown_pct a.peak_balance

  max_dd_limit_eod_trailing : Account D → D
  max_dd_limit_eod_trailing a = mul a.plan.max_total_drawdown_pct a.day_start_balance

  limit_for : LossReference → Account D → D
  unfolding max_dd_limit_static max_dd_limit_trailing max_dd_limit_eod_trailing
  limit_for LossReference.static a = max_dd_limit_static a
  limit_for LossReference.trailing a = max_dd_limit_trailing a
  limit_for LossReference.eod_trailing a = max_dd_limit_eod_trailing a
  limit_for LossReference.intraday_trail a = mul a.plan.max_total_drawdown_pct (intraday_peak a)

  unfoldable pub max_dd_limit : Account D → D
  unfolding limit_for
  max_dd_limit a = limit_for a.plan.max_loss_reference a

  -- The reference of `total_drawdown` and of the maximum drawdown rule.
  unfoldable pub loss_reference : LossReference → Account D → D
  loss_reference LossReference.static a = a.initial_balance
  loss_reference LossReference.trailing a = a.peak_balance
  loss_reference LossReference.eod_trailing a = a.day_start_balance
  loss_reference LossReference.intraday_trail a = intraday_peak a

  unfoldable pub total_drawdown : Account D → D
  unfolding loss_reference
  total_drawdown a =
      let current = if a.plan.drawdown_on_balance then a.balance else a.equity in
      max (sub (loss_reference a.plan.max_loss_reference a) current) nought

  unfoldable pub balance_drawdown : Account D → D
  balance_drawdown a = max (sub a.peak_balance a.balance) nought

  unfoldable pub equity_drawdown : Account D → D
  equity_drawdown a = max (sub a.peak_equity a.equity) nought

  unfoldable pub profit_target : Account D → D
  profit_target a = mul a.plan.profit_target_pct a.initial_balance

  unfoldable pub daily_drawdown : Account D → D
  daily_drawdown a =
      if a.plan.drawdown_on_balance
      then max (sub a.day_start_balance a.balance) nought
      else max (sub a.day_start_equity a.equity) nought

  unfoldable pub net_profit : Account D → D
  net_profit a = sub a.balance a.initial_balance

  unfoldable pub reached_profit_target : Account D → Bool
  unfolding net_profit profit_target
  reached_profit_target a = le (profit_target a) (net_profit a)

  ratio_or_zero : D → D → D
  ratio_or_zero x limit = if is_zero limit then nought else div x limit

  unfoldable pub daily_dd_utilization : Account D → D
  unfolding ratio_or_zero daily_drawdown daily_dd_limit
  daily_dd_utilization a = ratio_or_zero (daily_drawdown a) (daily_dd_limit a)

  unfoldable pub max_dd_utilization : Account D → D
  unfolding ratio_or_zero total_drawdown max_dd_limit
  max_dd_utilization a = ratio_or_zero (total_drawdown a) (max_dd_limit a)

unfoldable pub with_tenant : {D : Type 0} → Account D → Uuid → Account D
with_tenant a tenant_id = record a { tenant_id = tenant_id }

unfoldable pub target_pending : {D : Type 0} → Account D → Bool
target_pending a = is_some a.target_reached_at

unfoldable pub target_fully_satisfied : {D : Type 0} → Account D → Bool
target_fully_satisfied a =
    is_some a.target_reached_at && leb a.plan.min_trading_days a.active_trading_days
