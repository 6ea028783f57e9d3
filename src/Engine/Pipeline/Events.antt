-- ===== src/Engine/Pipeline/Events.antt =====
-- engine/pipeline.rs: the events, and `apply_event`, what each of them does to the account. The
-- wall clock is read several times; all readings of one call are one argument `now`.
use propfirm_engine.Base.{
  ℕ, ◌-◌, ◌/◌, Bool, true, false, not, ◌||◌, List, [], ◌∷◌, Option, none, some, is_some,
  if◌then◌else◌, ltb, leb, ◌==◌, Result, ok, invalid_state, persistence, tick_rejected, keep, find,
  refuse_if, ok_or, ◌>>=◌, ◌>>◌, String,
}
use propfirm_engine.Decimal.{Decimal}
use propfirm_engine.Core.Ids.{Uuid, Timestamp, nanos_per_minute}
use propfirm_engine.Core.Calendar.{Calendar}
use propfirm_engine.Core.Trading.{
  Trade, TradeExit, Position, PositionStatus, Tick, entry, exit, reverse, from_order, open_fill,
}
use propfirm_engine.Core.Order.{Order}
use propfirm_engine.Core.Plan.{trading_day_start}
use propfirm_engine.Core.Account.{Account, AccountStatus, active, failed, emergency_stopped, start}
use propfirm_engine.Core.Events.{DomainEvent, DomainEventKind, event}
use propfirm_engine.Rules.Context.{RuleContextKind}
use propfirm_engine.Engine.Override.{Override, validate}
use propfirm_engine.Engine.State.{
  apply_realized_pnl, update_equity, update_balance, set_estimated_equity, equity_after_tick,
  rollover_day, mark_active_trading_day, clear_breach, mark_payout_pending,
}
use propfirm_engine.Engine.State
use propfirm_engine.Payout.{PayoutQuote, quote_payout, record_payout}

pub data PipelineEvent (D : Type 0) : Type 0 where
  account_started : Timestamp → PipelineEvent D
  order_submitted : Order D → PipelineEvent D
  trade_filled : Trade D → PipelineEvent D
  -- A tick, with the equity and the balance that the broker reports.
  tick : Tick D → D → D → PipelineEvent D
  tick_estimated : Tick D → PipelineEvent D
  day_rollover : Bool → PipelineEvent D
  end_of_day on_demand : PipelineEvent D
  -- The reason, the actor and the time.
  emergency_stop : String → String → Timestamp → PipelineEvent D
  override_breach : Override → PipelineEvent D
  payout_request payout_approve : PipelineEvent D

unfoldable pub event_timestamp : {D : Type 0} → PipelineEvent D → Timestamp → Timestamp
event_timestamp (account_started at) now = at
event_timestamp (order_submitted order) now = order.submitted_at
event_timestamp (trade_filled trade) now = trade.executed_at
event_timestamp (tick t _ _) now = t.quote.ts
event_timestamp (tick_estimated t) now = t.quote.ts
event_timestamp (day_rollover _) now = now
event_timestamp end_of_day now = now
event_timestamp on_demand now = now
event_timestamp (emergency_stop _ _ at) now = at
event_timestamp (override_breach o) now = o.at
event_timestamp payout_request now = now
event_timestamp payout_approve now = now

abbrev pub stale_tick_threshold_minutes : ℕ
stale_tick_threshold_minutes = 10

pub record AppliedEvent (D : Type 0) : Type 0 where
  pub state : Account D
  pub ctx_kind : RuleContextKind
  pub open_positions : List (Position D)
  pub today_trades : List (Trade D)
  pub trade_fill : Option (Trade D × Position D)
  pub events : List (DomainEvent D)

-- Whole minutes of age; a tick of the future is not stale.
abbrev pub is_stale : Timestamp → Timestamp → Bool
is_stale ts now = ltb stale_tick_threshold_minutes ((now - ts) / nanos_per_minute)

abbrev pub is_out_of_order : Timestamp → Option Timestamp → Bool
is_out_of_order ts none = false
is_out_of_order ts (some last) = leb ts last

abbrev same_status : AccountStatus → AccountStatus → Bool
same_status AccountStatus.pending AccountStatus.pending = true
same_status active active = true
same_status AccountStatus.target_hit_pending AccountStatus.target_hit_pending = true
same_status AccountStatus.passed AccountStatus.passed = true
same_status failed failed = true
same_status AccountStatus.funded AccountStatus.funded = true
same_status AccountStatus.payout_pending AccountStatus.payout_pending = true
same_status AccountStatus.closed AccountStatus.closed = true
same_status emergency_stopped emergency_stopped = true
same_status _ _ = false

module _ {D : Type 0} ⦃d : Decimal D⦄ where
  open d use {nought, lt}

  -- The position that an exit closes: the tracked one, or a synthetic one.
  closed_position : Trade D → TradeExit D → Option (Position D) → Position D
  closed_position trade info (some pos) = record pos {
    status = PositionStatus.closed;
    closed_at = some trade.executed_at;
    realized_pnl = info.realized_pnl;
    open_quantity = nought;
  }
  closed_position trade info none = record {
    id = info.position_id;
    account_id = trade.account_id;
    symbol = trade.symbol;
    side = from_order trade.side;
    opened_at = trade.executed_at;
    closed_at = some trade.executed_at;
    status = PositionStatus.closed;
    avg_entry_price = info.entry_price;
    opened_quantity = info.closed_quantity;
    open_quantity = nought;
    realized_pnl = info.realized_pnl;
    commission = trade.commission;
    swap = trade.swap;
    stop_loss = none;
    take_profit = none;
    magic = none;
    comment = trade.comment;
  }

  -- `fresh` is the id of a position that is opened.
  unfoldable pub position_of_fill : Uuid → Trade D → List (Position D) → Result (Position D)
  unfolding closed_position
  position_of_fill fresh trade open_positions = elim trade.trade_side [
    | entry ↦ ok (open_fill fresh trade)
    | exit ↦ ok_or trade.exit_info persistence >>= λ info.
        ok (closed_position trade info (find (λ p. p.id == info.position_id) open_positions))
    | reverse ↦ ok (open_fill fresh trade)
  ]

  abbrev pub realized : Option (TradeExit D) → D
  realized none = nought
  realized (some info) = info.realized_pnl

  -- The quote of a request or an approval, which has to be permitted.
  unfoldable pub permitted_quote : Account D → Timestamp → Result (PayoutQuote D)
  permitted_quote a now = ok_or a.plan.payout_config invalid_state >>= λ config.
      (let quote =
          quote_payout a config a.last_payout_at (some a.balance_at_last_payout) a.refund_used
            now in
        refuse_if (is_some quote.rejected) invalid_state >> ok quote)

  module _ ⦃c : Calendar⦄ where
    -- `retain(|t| t.executed_at >= day_start)`
    unfoldable pub drop_old_trades : Account D → Timestamp → Account D
    drop_old_trades a event_ts =
        let day_start = trading_day_start a.plan event_ts in
        record a { today_trades = keep (λ t. leb day_start t.executed_at) a.today_trades }

    -- What the branches have in common; `a` is the account before the state transition.
    abbrev applied : Account D → RuleContextKind → Account D → List (DomainEvent D) → AppliedEvent D
    applied a kind b events = record {
      state = b;
      ctx_kind = kind;
      open_positions = a.open_positions;
      today_trades = a.today_trades;
      trade_fill = none;
      events = events;
    }

    on_fill : Account D → Trade D → Uuid → Result (AppliedEvent D)
    on_fill a trade fresh = position_of_fill fresh trade a.open_positions >>= λ position.
        (let b = mark_active_trading_day (
            apply_realized_pnl a (realized trade.exit_info) trade.commission trade.swap
              trade.executed_at) in
          ok
            (record (applied a RuleContextKind.on_trade_fill b
              (event b.id (DomainEventKind.trade_filled trade) trade.executed_at ∷ [])) {
                trade_fill = some (trade, position);
              }))

    on_tick : Account D → Tick D → D → D → Timestamp → Result (AppliedEvent D)
    on_tick a t broker_equity broker_balance now = do
      refuse_if (is_stale t.quote.ts now) tick_rejected
      refuse_if (is_out_of_order t.quote.ts a.last_tick_ts) tick_rejected
      ok (
          applied a RuleContextKind.on_tick
            (update_balance (update_equity a broker_equity) broker_balance)
            (event a.id (DomainEventKind.tick_evaluated broker_equity) t.quote.ts ∷ []))

    on_estimate : Account D → Tick D → AppliedEvent D
    on_estimate a t =
        let equity = equity_after_tick a.balance a.open_positions t.quote in
        applied a RuleContextKind.on_tick (set_estimated_equity a equity a.balance)
          (event a.id (DomainEventKind.tick_evaluated equity) t.quote.ts ∷ [])

    on_override : Account D → Override → Result (AppliedEvent D)
    on_override a o = do
      validate o
      refuse_if (not (o.account_id == a.id)) invalid_state
      clear_breach a >>= λ b. ok (
          applied a RuleContextKind.on_demand b (
            event b.id (DomainEventKind.account_status_changed failed active) o.at
            ∷ event b.id
                (DomainEventKind.override_cleared o.clears_violation_id o.reason o.actor_id o.at)
                o.at
            ∷ []))

    on_payout_request : Account D → Timestamp → Result (AppliedEvent D)
    on_payout_request a now = permitted_quote a now >>= λ quote. mark_payout_pending a >>= λ b. ok (
        applied a RuleContextKind.on_demand b (
          event a.id (DomainEventKind.payout_requested quote.profit_basis quote.amount) now
          ∷ (if same_status a.status b.status
              then []
              else event a.id (DomainEventKind.account_status_changed a.status b.status) now ∷ [])))

    on_payout_approve : Account D → Timestamp → Result (AppliedEvent D)
    on_payout_approve a now = permitted_quote a now >>= λ quote.
        record_payout a quote.amount quote.fee_refund now >>= λ b. ok (
          applied a RuleContextKind.on_demand
            (record b { refund_used = b.refund_used || lt nought quote.fee_refund })
            (event a.id (DomainEventKind.payout_approved quote.amount quote.fee_refund) now ∷ []))

    by_event : Account D → PipelineEvent D → Timestamp → Uuid → Result (AppliedEvent D)
    unfolding on_fill on_tick on_estimate on_override on_payout_request on_payout_approve
    by_event a (account_started at) now fresh = start a at >>= λ b. ok (
        applied a RuleContextKind.on_demand b
          (event b.id (DomainEventKind.account_started a.plan) at ∷ []))
    by_event a (order_submitted order) now fresh =
        ok (applied a RuleContextKind.on_order_submit a [])
    by_event a (trade_filled trade) now fresh = on_fill a trade fresh
    by_event a (tick t equity balance) now fresh = on_tick a t equity balance now
    by_event a (tick_estimated t) now fresh = ok (on_estimate a t)
    by_event a (day_rollover had_trades_today) now fresh =
        (let b = rollover_day a had_trades_today none now in
          ok (
            applied a RuleContextKind.on_day_rollover b (
              event b.id (DomainEventKind.day_rollover b.trading_day_index b.day_start_balance) now
              ∷ [])))
    by_event a end_of_day now fresh = ok (applied a RuleContextKind.on_end_of_day a [])
    by_event a on_demand now fresh = ok (applied a RuleContextKind.on_demand a [])
    by_event a (emergency_stop reason actor_id at) now fresh =
        (let b = State.emergency_stop a in
          ok (
            applied a RuleContextKind.on_demand b (
              event b.id (DomainEventKind.account_status_changed a.status emergency_stopped) at
              ∷ [])))
    by_event a (override_breach o) now fresh = on_override a o
    by_event a payout_request now fresh = on_payout_request a now
    by_event a payout_approve now fresh = on_payout_approve a now

    -- The recent events of the store, which `apply_event` fetches first, are an argument of
    -- `process`.
    unfoldable pub apply_event :
        Account D → PipelineEvent D → Timestamp → Uuid → Result (AppliedEvent D)
    unfolding by_event drop_old_trades event_timestamp
    apply_event a ev now fresh = by_event (drop_old_trades a (event_timestamp ev now)) ev now fresh
