-- ===== src/Engine/Pipeline/Process/Stages.antt =====
-- The stages that a processed event goes through, and what each of them keeps.
use propfirm_engine.Base.{◌≡◌, false, List, ◌++◌, Option, none, some, arith, ok, bind-ok}
use propfirm_engine.Decimal.{Decimal}
use propfirm_engine.Core.Ids.{Uuid, Timestamp}
use propfirm_engine.Core.Calendar.{Calendar}
use propfirm_engine.Core.Account.{Account, start}
use propfirm_engine.Engine.State
use propfirm_engine.Engine.State.{
  apply_realized_pnl, mark_active_trading_day, update_equity, update_balance, set_estimated_equity,
  rollover_day, clear_breach, mark_payout_pending,
}
use propfirm_engine.Engine.Override.{validate}
use propfirm_engine.Payout.{record_payout}
use propfirm_engine.Core.Trading.{Tick}
use propfirm_engine.Core.Events.{DomainEvent}
use propfirm_engine.Engine.Decision.{from_reports}
use propfirm_engine.Engine.Pipeline.Apply.{apply_decision}
use propfirm_engine.Engine.Pipeline.Rollover.Ends.{SameMoney, auto_rollover_keeps}
use propfirm_engine.Engine.Pipeline.Events.{
  PipelineEvent, AppliedEvent, account_started, order_submitted, trade_filled, day_rollover,
  end_of_day, on_demand, emergency_stop, override_breach, payout_request, payout_approve,
  permitted_quote, position_of_fill, apply_event, event_timestamp, tick, tick_estimated, is_stale,
  is_out_of_order,
}
use propfirm_engine.Engine.Pipeline.Process.{
  Services, PipelineResult, process, mark_tick, consume_fill, build_context, roll_before, finish,
  actor_of, notify_all,
}
use propfirm_engine.Engine.Decision.Winner.{violations_in}

module _ {D : Type 0} ⦃d : Decimal D⦄ ⦃c : Calendar⦄ (services : Services D) where
  roll_before_keeps :
      (a b : Account D) (ev : PipelineEvent D) (now : Timestamp) (es : List (DomainEvent D))
      → roll_before services a ev now ≡ ok (b, es)
      → SameMoney a b
  unfolding roll_before
  roll_before_keeps a b ev now es h =
      ground (arith, auto_rollover_keeps a b (event_timestamp ev now) now es)

  -- The stages that a processed event went through.
  abbrev pub Stages :
      PipelineEvent D → Timestamp → Uuid → Uuid → Account D → PipelineResult D → Type 0
  Stages ev now fresh fresh_instruction a r =
      (rolled : Account D) × (applied : AppliedEvent D) × (ended : Account D) × (decided : List
        (DomainEvent D))
      × SameMoney a rolled
      × (apply_event rolled ev now fresh ≡ ok applied)
      × (apply_decision (consume_fill applied.trade_fill applied.state) r.decision fresh_instruction
            now (actor_of ev)
          ≡ ok (ended, decided))
      × (r.account ≡ mark_tick ev ended)
      × (r.decision ≡ from_reports r.reports)
      × (recent : List (DomainEvent D)) × (services.evaluate_rules
            (build_context applied ev recent now)
          ≡ ok r.reports)

  stages_after :
      (applied : AppliedEvent D) (ev : PipelineEvent D) (recent before : List (DomainEvent D))
      (now : Timestamp) (g : Uuid) (r : PipelineResult D)
      → finish services applied ev recent before now g ≡ ok r
      → (ended : Account D) × (decided : List (DomainEvent D)) × (apply_decision
            (consume_fill applied.trade_fill applied.state)
            r.decision
            g
            now
            (actor_of ev)
          ≡ ok (ended, decided))
        × (r.account ≡ mark_tick ev ended)
        × (r.decision ≡ from_reports r.reports)
        × (services.evaluate_rules (build_context applied ev recent now) ≡ ok r.reports)
  unfolding finish
  stages_after applied ev recent before now g r h =
      let (reports, given, after_rules) =
        bind-ok (services.evaluate_rules (build_context applied ev recent now)) _ r h in
      let ((ended, decided), done, after_decision) =
        bind-ok
          (apply_decision (consume_fill applied.trade_fill applied.state) (from_reports reports) g
            now (actor_of ev))
          _ r after_rules in
      let (_, _, last) =
        bind-ok (notify_all services.notify_violation (violations_in reports)) _ r after_decision in
      (
        ended,
        decided,
        ground (arith, last, done),
        ground (arith, last),
        ground (arith, last),
        ground (arith, last, given),
      )

  pub stages :
      (a : Account D) (ev : PipelineEvent D) (now : Timestamp) (f g : Uuid) (r : PipelineResult D)
      → process services a ev now f g ≡ ok r
      → Stages ev now f g a r
  unfolding process
  stages a ev now f g r h =
      let ((rolled, es), e, h1) = bind-ok (roll_before services a ev now) _ r h in
      let (recent, _, h2) = bind-ok (services.recent rolled.id 50) _ r h1 in
      let (applied, e3, h3) = bind-ok (apply_event rolled ev now f) _ r h2 in
      let (ended, decided, e4, e5, e6, e7) =
        stages_after applied ev recent (es ++ applied.events) now g r h3 in
      (
        rolled,
        applied,
        ended,
        decided,
        roll_before_keeps a rolled ev now es e,
        e3,
        e4,
        e5,
        e6,
        recent,
        e7,
      )

-- The time of a tick, estimated or not.
abbrev pub tick_time : {D : Type 0} → PipelineEvent D → Option Timestamp
tick_time (tick t _ _) = some t.quote.ts
tick_time (tick_estimated t) = some t.quote.ts
tick_time _ = none

abbrev pub or_last {ℓ} : {A : Type ℓ} → Option A → Option A → Option A
or_last none last = last
or_last (some t) last = some t

module _ {D : Type 0} ⦃d : Decimal D⦄ ⦃c : Calendar⦄ where
  pub apply_event_keeps_tick :
      (a : Account D) (ev : PipelineEvent D) (now : Timestamp) (f : Uuid) (x : AppliedEvent D)
      → apply_event a ev now f ≡ ok x
      → x.state.last_tick_ts ≡ a.last_tick_ts
  unfolding apply_event start apply_realized_pnl mark_active_trading_day update_equity
      update_balance set_estimated_equity rollover_day State.emergency_stop validate clear_breach
      mark_payout_pending record_payout permitted_quote position_of_fill
  apply_event_keeps_tick a (account_started at) now f x h = ground arith
  apply_event_keeps_tick a (order_submitted order) now f x h = ground arith
  apply_event_keeps_tick a (trade_filled trade) now f x h = ground arith
  apply_event_keeps_tick a (tick t equity balance) now f x h = ground arith
  apply_event_keeps_tick a (tick_estimated t) now f x h = ground arith
  apply_event_keeps_tick a (day_rollover had) now f x h = ground arith
  apply_event_keeps_tick a end_of_day now f x h = ground arith
  apply_event_keeps_tick a on_demand now f x h = ground arith
  apply_event_keeps_tick a (emergency_stop reason actor_id at) now f x h = ground arith
  apply_event_keeps_tick a (override_breach o) now f x h = ground arith
  apply_event_keeps_tick a payout_request now f x h = ground arith
  apply_event_keeps_tick a payout_approve now f x h = ground arith

  pub apply_event_guards :
      (a : Account D) (t : Tick D) (equity balance : D) (now : Timestamp) (f : Uuid)
      (x : AppliedEvent D)
      → apply_event a (tick t equity balance) now f ≡ ok x
      → (is_stale t.quote.ts now ≡ false) × (is_out_of_order t.quote.ts a.last_tick_ts ≡ false)
  unfolding apply_event
  apply_event_guards a t equity balance now f x h = ground arith

  pub mark_tick_lem :
      (a : Account D) (ev : PipelineEvent D)
      → (mark_tick ev a).last_tick_ts ≡ or_last (tick_time ev) a.last_tick_ts
  unfolding mark_tick
  mark_tick_lem a ev = ground arith
