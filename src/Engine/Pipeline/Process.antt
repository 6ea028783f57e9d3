-- ===== src/Engine/Pipeline/Process.antt =====
-- engine/pipeline.rs, `process`: one event through the rollover, the transition, the rules and the
-- decision; and the evaluation of engine/evaluator.rs. The snapshot of the result is left out.
mod Stages
pub mod Results
pub mod Replay
pub mod Fills
pub mod Estimated
pub mod Closing
use propfirm_engine.Base.{
  ℕ, Bool, true, false, not, ◌&&◌, ◌||◌, List, [], ◌∷◌, ◌++◌, Option, none, some, map,
  if◌then◌else◌, ◌==◌, Result, ok, keep, ◌>>=◌, ◌>>◌, String,
}
use propfirm_engine.Decimal.{Decimal}
use propfirm_engine.Core.Ids.{Uuid, Timestamp}
use propfirm_engine.Core.Calendar.{Calendar}
use propfirm_engine.Core.Violation.{Violation}
use propfirm_engine.Core.Trading.{Trade, Position, is_open}
use propfirm_engine.Core.Account.{Account, AccountStatus, active, failed}
use propfirm_engine.Core.Events.{DomainEvent, DomainEventKind, event}
use propfirm_engine.Rules.Verdict.{RuleReport}
use propfirm_engine.Rules.Config.{from_plan}
use propfirm_engine.Rules.Context
use propfirm_engine.Rules.Context.{RuleContext, RuleContextKind, broker_reported, estimated}
use propfirm_engine.Engine.Decision.{Decision, DecisionKind, from_reports}
use propfirm_engine.Engine.Decision.Winner.{violations_in}
use propfirm_engine.Engine.Pipeline.Apply.{apply_decision}
use propfirm_engine.Engine.Pipeline.Rollover.{auto_rollover}
use propfirm_engine.Engine.Pipeline.Events.{
  PipelineEvent, AppliedEvent, apply_event, event_timestamp, order_submitted, trade_filled, tick,
  tick_estimated, day_rollover, emergency_stop,
}

-- What the pipeline calls: the event store, the rules of its evaluator, and the notifier.
pub record Services (D : Type 0) : Type 0 where
  pub recent : Uuid → ℕ → Result (List (DomainEvent D))
  pub evaluate_rules : RuleContext D → Result (List (RuleReport D))
  pub notify_violation : Violation D → Result (Unit {0})

pub record PipelineResult (D : Type 0) : Type 0 where
  pub events : List (DomainEvent D)
  pub reports : List (RuleReport D)
  pub decision : Decision D
  pub account : Account D

abbrev is_day_rollover : {D : Type 0} → PipelineEvent D → Bool
is_day_rollover (day_rollover _) = true
is_day_rollover _ = false

-- The actor of a liquidation.
abbrev actor_of : {D : Type 0} → PipelineEvent D → String
actor_of (emergency_stop reason actor_id at) = actor_id
actor_of _ = "rule_engine"

module _ {D : Type 0} where
  -- After the evaluation a tick, also an estimated one, is the last one seen.
  unfoldable pub mark_tick : PipelineEvent D → Account D → Account D
  mark_tick (tick t _ _) a = record a { last_tick_ts = some t.quote.ts }
  mark_tick (tick_estimated t) a = record a { last_tick_ts = some t.quote.ts }
  mark_tick _ a = a

  -- `emit_decision_event`
  unfoldable pub decision_events : Uuid → Decision D → Timestamp → List (DomainEvent D)
  decision_events account_id decision now = elim decision.kind [
    | DecisionKind.fail ↦
        event account_id (DomainEventKind.account_status_changed active failed) now ∷ []
    | DecisionKind.liquidate ↦
        event account_id (DomainEventKind.account_status_changed active failed) now ∷ []
    | _ ↦ []
  ]

  notify_all : (Violation D → Result (Unit {0})) → List (Violation D) → Result (Unit {0})
  notify_all notify [] = ok tt
  notify_all notify (v ∷ vs) = notify v >> notify_all notify vs

module _ {D : Type 0} ⦃d : Decimal D⦄ where
  -- The fill enters the lists of the account after the rules have seen them without it.
  unfoldable pub consume_fill : Option (Trade D × Position D) → Account D → Account D
  consume_fill none a = a
  consume_fill (some (trade, position)) a =
      let others = keep (λ p. not (p.id == position.id)) a.open_positions in
      record a {
        open_positions = if is_open position then others ++ position ∷ [] else others;
        today_trades = a.today_trades ++ trade ∷ [];
      }

  by_event_context : PipelineEvent D → RuleContext D → RuleContext D
  by_event_context (order_submitted order) ctx = record ctx { pending_order = some order }
  by_event_context (trade_filled trade) ctx = record ctx { latest_trade = some trade }
  by_event_context (tick t equity balance) ctx = record ctx {
    latest_tick = some t;
    equity_input = broker_reported equity balance;
  }
  by_event_context (tick_estimated t) ctx = record ctx {
    latest_tick = some t;
    equity_input = estimated ctx.account.estimated_equity ctx.account.estimated_balance;
  }
  by_event_context _ ctx = ctx

  unfoldable pub build_context :
      AppliedEvent D → PipelineEvent D → List (DomainEvent D) → Timestamp → RuleContext D
  unfolding by_event_context
  build_context applied ev recent_events now =
      by_event_context ev (record (Context.new applied.state now) {
        kind = applied.ctx_kind;
        open_positions = applied.open_positions;
        today_trades = applied.today_trades;
        recent_events = recent_events;
        rule_config = from_plan applied.state.plan;
      })

  module _ ⦃c : Calendar⦄ (services : Services D) where
    roll_before :
        Account D → PipelineEvent D → Timestamp → Result (Account D × List (DomainEvent D))
    roll_before a ev now =
        if is_day_rollover ev then ok (a, []) else auto_rollover a (event_timestamp ev now) now

    -- From the evaluation on.
    finish :
        AppliedEvent D
        → PipelineEvent D
        → List (DomainEvent D)
        → List (DomainEvent D)
        → Timestamp
        → Uuid
        → Result (PipelineResult D)
    unfolding build_context consume_fill mark_tick decision_events notify_all
    finish applied ev recent_events before now fresh = do
      let ctx = build_context applied ev recent_events now
      reports ← services.evaluate_rules ctx
      let decision = from_reports reports
      (ended, decided) ←
          apply_decision (consume_fill applied.trade_fill applied.state) decision fresh now
            (actor_of ev)
      let violations = violations_in reports
      let account = mark_tick ev ended
      notify_all services.notify_violation violations
      ok (record {
        events =
            before
            ++ decided
            ++ decision_events applied.state.id decision now
            ++ map (λ v. event applied.state.id (DomainEventKind.rule_violated v) now) violations;
        reports = reports;
        decision = decision;
        account = account;
      })

    -- `fresh_position` and `fresh_instruction` are the UUIDs that the call may draw.
    unfoldable pub process :
        Account D → PipelineEvent D → Timestamp → Uuid → Uuid → Result (PipelineResult D)
    unfolding roll_before finish
    process a ev now fresh_position fresh_instruction = do
      (rolled, rollover_events) ← roll_before a ev now
      recent_events ← services.recent rolled.id 50
      applied ← apply_event rolled ev now fresh_position
      finish applied ev recent_events (rollover_events ++ applied.events) now fresh_instruction
