-- ===== src/Engine/State.antt =====
-- engine/state.rs. `AccountState` wraps one account, so its methods are functions on accounts.
pub mod Peaks
pub mod Days
pub mod Status
mod Examples
use propfirm_engine.Base.{
  Bool, true, false, not, ◌&&◌, ◌||◌, List, [], ◌∷◌, Option, none, some, is_some, unwrap_or,
  if◌then◌else◌, add_u32, Result, ok, err, invalid_state, keep,
}
use propfirm_engine.Decimal.{Decimal}
use propfirm_engine.Core.Ids.{Timestamp}
use propfirm_engine.Core.Calendar.{Calendar}
use propfirm_engine.Core.Trading.{Position, Quote, is_open, unrealized_pnl}
use propfirm_engine.Core.Plan.{
  ChallengePhase, phase1, phase2, trading_day_start, next_trading_day_start, with_phase,
}
use propfirm_engine.Core.Account.{
  Account, AccountType, AccountStatus, active, target_hit_pending, failed, emergency_stopped,
  payout_pending, type_of_phase,
}
use propfirm_engine.Engine.Override.{Override}

module _ {D : Type 0} ⦃d : Decimal D⦄ where
  open d use {nought, add, sub, mul, abs, lt, le}

  -- `if value > peak { peak = value }`
  abbrev pub raise : D → D → D
  raise peak value = if lt peak value then value else peak

  -- `if value < low { low = value }`
  abbrev lower : D → D → D
  lower low value = if lt value low then value else low

  unfoldable pub apply_realized_pnl : Account D → D → D → D → Timestamp → Account D
  apply_realized_pnl a pnl commission swap at =
      let net = sub (sub pnl commission) swap in
      let balance = add a.balance net in
      record a {
        balance = balance;
        equity = balance;
        peak_balance = raise a.peak_balance balance;
        today_realized_pnl = add a.today_realized_pnl net;
        total_realized_pnl = add a.total_realized_pnl net;
        total_commissions = add a.total_commissions commission;
        total_swaps = add a.total_swaps swap;
        last_trade_at = some at;
      }

  unfoldable pub update_equity : Account D → D → Account D
  update_equity a equity = record a {
    equity = equity;
    peak_equity = raise a.peak_equity equity;
    intraday_peak_equity = raise a.intraday_peak_equity equity;
  }

  unfoldable pub set_estimated_equity : Account D → D → D → Account D
  set_estimated_equity a equity balance = record a {
    estimated_equity = equity;
    estimated_balance = balance;
  }

  unfoldable pub update_balance : Account D → D → Account D
  update_balance a balance = record a {
    balance = balance;
    peak_balance = raise a.peak_balance balance;
  }

  -- `option.map(|t| abs_pnl >= t * initial).unwrap_or(true)`
  meets : Option D → D → D → Bool
  meets none initial abs_pnl = true
  meets (some t) initial abs_pnl = le (mul t initial) abs_pnl

  -- Whether a day with trades counts as a qualifying day.
  unfoldable pub qualifies : Account D → Bool
  unfolding meets
  qualifies a =
      let plan = a.plan in
      let abs_pnl = abs a.today_realized_pnl in
      (is_some plan.qualifying_day_threshold_pct || is_some plan.qualifying_day_pnl_band_pct)
      && (meets plan.qualifying_day_threshold_pct a.initial_balance abs_pnl
          && meets plan.qualifying_day_pnl_band_pct a.initial_balance abs_pnl)

  -- The block of `rollover_day` for a day with trades.
  unfoldable pub freeze_day : Account D → Account D
  unfolding qualifies
  freeze_day a =
      let today_net = a.today_realized_pnl in
      let profitable = lt nought today_net in
      record a {
        largest_day_profit = raise a.largest_day_profit today_net;
        largest_day_loss = lower a.largest_day_loss today_net;
        sum_positive_days_profit =
            if profitable
            then add a.sum_positive_days_profit today_net
            else a.sum_positive_days_profit;
        profitable_days_count =
            if profitable then add_u32 a.profitable_days_count 1 else a.profitable_days_count;
        qualifying_trading_days_count =
            if qualifies a
            then add_u32 a.qualifying_trading_days_count 1
            else a.qualifying_trading_days_count;
        active_trading_days =
            if a.day_counted_today then a.active_trading_days else add_u32 a.active_trading_days 1;
      }

  -- The resets of `rollover_day`, with the start of the new day.
  unfoldable pub open_day : Account D → Timestamp → Account D
  open_day a day_start = record a {
    trading_day_index = add_u32 a.trading_day_index 1;
    day_start_balance = a.balance;
    day_start_equity = a.equity;
    intraday_peak_equity = a.equity;
    today_realized_pnl = nought;
    today_trades = [];
    day_counted_today = false;
    current_trading_day_start = some day_start;
  }

  module _ ⦃c : Calendar⦄ where
    next_start : Account D → Option Timestamp → Timestamp → Timestamp
    next_start a (some ts) now = trading_day_start a.plan ts
    next_start a none now =
        next_trading_day_start a.plan
          (unwrap_or a.current_trading_day_start (trading_day_start a.plan now))

    -- `now` is the wall clock, read when neither the target nor the current day is known.
    unfoldable pub rollover_day : Account D → Bool → Option Timestamp → Timestamp → Account D
    unfolding freeze_day open_day next_start
    rollover_day a had_trades target_ts now =
        open_day (if had_trades then freeze_day a else a) (next_start a target_ts now)

    -- `rollover_day` without a target.
    unfoldable pub rollover_day_single : Account D → Bool → Timestamp → Account D
    unfolding rollover_day
    rollover_day_single a had_trades now = rollover_day a had_trades none now

  -- The unrealized profit of the open positions, and the estimate of the equity.
  sum_pnl : D → List (Position D) → Quote D → D
  sum_pnl acc [] quote = acc
  sum_pnl acc (p ∷ ps) quote = sum_pnl (add acc (unrealized_pnl p quote)) ps quote

  unfoldable pub equity_after_tick : D → List (Position D) → Quote D → D
  unfolding sum_pnl
  equity_after_tick balance positions quote =
      add balance (sum_pnl nought (keep is_open positions) quote)

-- `if status == Active { status = TargetHitPending }`
abbrev await_days : AccountStatus → AccountStatus
await_days active = target_hit_pending
await_days s = s

abbrev keep_first : Option AccountStatus → AccountStatus → Option AccountStatus
keep_first none s = some s
keep_first (some t) s = some t

abbrev live_status : AccountType → AccountStatus
live_status AccountType.funded = AccountStatus.funded
live_status _ = active

module _ {D : Type 0} where
  unfoldable pub mark_active_trading_day : Account D → Account D
  mark_active_trading_day a = if a.day_counted_today then a else record a {
    active_trading_days = add_u32 a.active_trading_days 1;
    day_counted_today = true;
  }

  abbrev to_phase : Account D → ChallengePhase → Account D
  to_phase a to = record a { plan = with_phase a.plan to; account_type = type_of_phase to }

  upgrade : ChallengePhase → ChallengePhase → Account D → Result (Account D)
  upgrade phase1 phase2 a = ok (to_phase a phase2)
  upgrade phase2 ChallengePhase.funded a = ok (to_phase a ChallengePhase.funded)
  upgrade _ _ a = err invalid_state

  unfoldable pub upgrade_phase : Account D → ChallengePhase → Result (Account D)
  unfolding upgrade
  upgrade_phase a to = upgrade a.plan.phase to a

  unfoldable pub mark_target_reached : Account D → Timestamp → Account D
  mark_target_reached a at = if is_some a.target_reached_at then a else record a {
    target_reached_at = some at;
    target_reached_on_day = some a.trading_day_index;
    status = await_days a.status;
  }

  -- The reason, the actor and the time are not recorded on the account.
  unfoldable pub emergency_stop : Account D → Account D
  emergency_stop a = record a {
    status_before_breach = keep_first a.status_before_breach a.status;
    status = emergency_stopped;
  }

  abbrev restore : Account D → Account D
  restore a = record a {
    status = unwrap_or a.status_before_breach (live_status a.account_type);
    status_before_breach = none;
  }

  clear : AccountStatus → Account D → Result (Account D)
  clear failed a = ok (restore a)
  clear emergency_stopped a = ok (restore a)
  clear _ a = err invalid_state

  -- The override is recorded by the caller, not on the account.
  unfoldable pub clear_breach : Account D → Result (Account D)
  unfolding clear
  clear_breach a = clear a.status a

  unfoldable pub terminate : Account D → AccountStatus → Account D
  terminate a status = record a { status = status }

  request_payout : AccountStatus → Account D → Result (Account D)
  request_payout AccountStatus.funded a = ok (record a { status = payout_pending })
  request_payout payout_pending a = ok a
  request_payout _ a = err invalid_state

  unfoldable pub mark_payout_pending : Account D → Result (Account D)
  unfolding request_payout
  mark_payout_pending a = request_payout a.status a
