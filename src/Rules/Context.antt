-- ===== src/Rules/Context.antt =====
-- rules/context.rs and equity_input.rs: what a rule sees.
use propfirm_engine.Base.{
  true, false, ℕ, length, keep, String, [], Bool, List, Option, none, some, is_some,
}
use propfirm_engine.Core.Ids.{Uuid, Timestamp}
use propfirm_engine.Core.Trading.{Trade, Position, Tick, is_open}
use propfirm_engine.Core.Account.{Account}
use propfirm_engine.Core.Violation.{Violation, ViolationKind, ViolationSeverity}
use propfirm_engine.Core.Order.{Order, open_position, close_position}
use propfirm_engine.Core.Events.{DomainEvent}
use propfirm_engine.Core.Instrument.{InstrumentRegistry}
use propfirm_engine.Rules.Config.{RuleConfig, empty, from_plan}
use propfirm_engine.Decimal.{Decimal}

pub data RuleContextKind : Type 0 where
  on_order_submit on_trade_fill on_tick on_day_rollover on_end_of_day on_demand : RuleContextKind

pub data EquityInput (D : Type 0) : Type 0 where
  broker_reported estimated : D → D → EquityInput D

-- The equity comes first, then the balance.
abbrev pub broker_equity : {D : Type 0} → EquityInput D → Option D
broker_equity (broker_reported equity balance) = some equity
broker_equity (estimated equity balance) = none

pub record RuleContext (D : Type 0) : Type 0 where
  pub account : Account D
  pub open_positions : List (Position D)
  pub today_trades : List (Trade D)
  pub pending_order : Option (Order D)
  pub latest_trade : Option (Trade D)
  pub latest_tick : Option (Tick D)
  pub recent_events : List (DomainEvent D)
  pub cross_reference_trades : List (Trade D)
  pub instruments : InstrumentRegistry D
  pub server_time : Timestamp
  pub kind : RuleContextKind
  pub rule_config : RuleConfig D
  pub equity_input : EquityInput D

module _ {D : Type 0} where
  -- `require_started().is_ok()`
  abbrev pub require_started : RuleContext D → Bool
  require_started ctx = is_some ctx.account.started_at

  -- `require_broker_equity().ok()`
  abbrev pub require_broker_equity : RuleContext D → Option D
  require_broker_equity ctx = broker_equity ctx.equity_input

  -- The fresh UUID of a violation is an argument.
  abbrev pub build_violation :
      Uuid → String → ViolationKind → RuleContext D → ViolationSeverity → Violation D
  build_violation id rule_name kind ctx severity = record {
    id = id;
    account_id = ctx.account.id;
    tenant_id = ctx.account.tenant_id;
    rule_name = rule_name;
    kind = kind;
    severity = severity;
    occurred_at = ctx.server_time;
    breach_value = none;
    threshold_value = none;
    utilization = none;
  }

module _ {D : Type 0} ⦃d : Decimal D⦄ where
  -- `RuleContext::new`. `now` is the wall clock.
  abbrev pub new : Account D → Timestamp → RuleContext D
  new account now = record {
    account = account;
    open_positions = [];
    today_trades = [];
    pending_order = none;
    latest_trade = none;
    latest_tick = none;
    recent_events = [];
    cross_reference_trades = [];
    instruments = [];
    server_time = now;
    kind = on_demand;
    rule_config = empty;
    equity_input = estimated d.nought d.nought;
  }

  abbrev pub with_broker_equity : RuleContext D → D → D → RuleContext D
  with_broker_equity ctx equity balance = record ctx {
    equity_input = broker_reported equity balance;
  }

  abbrev pub with_estimated_equity : RuleContext D → D → D → RuleContext D
  with_estimated_equity ctx equity balance = record ctx { equity_input = estimated equity balance }

  -- The contexts of one event, with the wall clock `now`.
  unfoldable pub for_open_order : Account D → Order D → Timestamp → RuleContext D
  for_open_order account order now = record (new account now) {
    pending_order = some order;
    kind = on_order_submit;
    rule_config = from_plan account.plan;
  }

  unfoldable pub for_trade_fill : Account D → Trade D → Timestamp → RuleContext D
  for_trade_fill account trade now = record (new account now) {
    latest_trade = some trade;
    kind = on_trade_fill;
    rule_config = from_plan account.plan;
  }

  unfoldable pub for_tick : Account D → Tick D → Timestamp → RuleContext D
  for_tick account tick now = record (new account now) {
    latest_tick = some tick;
    kind = on_tick;
    rule_config = from_plan account.plan;
  }

  unfoldable pub for_day_rollover : Account D → Timestamp → RuleContext D
  for_day_rollover account now = record (new account now) {
    kind = on_day_rollover;
    rule_config = from_plan account.plan;
  }

  -- The positions that are open.
  unfoldable pub open_position_count : RuleContext D → ℕ
  open_position_count ctx = length (keep is_open ctx.open_positions)

  -- `matches!(order.kind, Open)` and `matches!(order.kind, Close { .. })`
  abbrev pub is_opening : Order D → Bool
  is_opening order = elim order.kind [ open_position ↦ true | _ ↦ false ]

  abbrev pub is_closing : Order D → Bool
  is_closing order = elim order.kind [ close_position _ _ ↦ true | _ ↦ false ]
