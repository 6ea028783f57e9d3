-- ===== src/Engine/Pipeline/Process/Results.antt =====
-- What a processed event leaves on the account, through all stages of the pipeline.
use propfirm_engine.Base.{◌≡◌, false, Option, arith, ok}
use propfirm_engine.Decimal.{Decimal}
use propfirm_engine.Core.Ids.{Uuid, Timestamp}
use propfirm_engine.Core.Calendar.{Calendar}
use propfirm_engine.Core.Account.{Account, emergency_stopped}
use propfirm_engine.Core.Trading.{Tick, Trade, Position}
use propfirm_engine.Base.{String}
use propfirm_engine.Engine.State.{
  apply_realized_pnl, mark_active_trading_day, equity_after_tick, set_estimated_equity,
}
use propfirm_engine.Engine.State
use propfirm_engine.Engine.Pipeline.Applied.{
  apply_decision_keeps, apply_decision_stopped, stop_status,
}
use propfirm_engine.Engine.Pipeline.Events.{
  PipelineEvent, AppliedEvent, apply_event, tick, tick_estimated, is_stale, is_out_of_order,
  emergency_stop,
}
use propfirm_engine.Engine.Pipeline.Process.{
  Services, PipelineResult, process, mark_tick, consume_fill,
}
use propfirm_engine.Engine.Pipeline.Process.Stages.{
  stages, tick_time, or_last, apply_event_keeps_tick, apply_event_guards, mark_tick_lem,
}

module _ {D : Type 0} ⦃d : Decimal D⦄ ⦃c : Calendar⦄ where
  consume_fill_tick :
      (fill : Option (Trade D × Position D)) (a : Account D)
      → (consume_fill fill a).last_tick_ts ≡ a.last_tick_ts
  unfolding consume_fill
  consume_fill_tick fill a = ground arith

  pub mark_tick_keeps :
      (a : Account D) (ev : PipelineEvent D)
      → let b = mark_tick ev a in
        (b.balance ≡ a.balance)
        × (b.equity ≡ a.equity)
        × (b.status ≡ a.status)
        × (b.estimated_equity ≡ a.estimated_equity)
        × (b.open_positions ≡ a.open_positions)
        × (b.today_trades ≡ a.today_trades)
  unfolding mark_tick
  mark_tick_keeps a ev = ground arith

  apply_event_stops :
      (a : Account D) (reason actor_id : String) (at now : Timestamp) (f : Uuid)
      (x : AppliedEvent D)
      → apply_event a (emergency_stop reason actor_id at) now f ≡ ok x
      → (consume_fill x.trade_fill x.state).status ≡ emergency_stopped
  unfolding apply_event State.emergency_stop consume_fill
  apply_event_stops a reason actor_id at now f x h = ground arith

  apply_event_estimates :
      (a : Account D) (t : Tick D) (now : Timestamp) (f : Uuid) (x : AppliedEvent D)
      → apply_event a (tick_estimated t) now f ≡ ok x
      → let b = consume_fill x.trade_fill x.state in
        (b.balance ≡ a.balance)
        × (b.equity ≡ a.equity)
        × (b.estimated_equity ≡ equity_after_tick a.balance a.open_positions t.quote)
  unfolding apply_event set_estimated_equity consume_fill
  apply_event_estimates a t now f x h = ground arith

module _ {D : Type 0} ⦃d : Decimal D⦄ ⦃c : Calendar⦄ (services : Services D) where
  -- Every processed event leaves as the last tick its own time if it is a tick, estimated or not,
  -- and otherwise the last tick of before.
  pub last_tick-process :
      (a : Account D) (ev : PipelineEvent D) (now : Timestamp) (f g : Uuid) (r : PipelineResult D)
      → process services a ev now f g ≡ ok r
      → r.account.last_tick_ts ≡ or_last (tick_time ev) a.last_tick_ts
  last_tick-process a ev now f g r h =
      let (rolled, applied, ended, decided, same, e1, e2, e3, _, _, _) =
        stages services a ev now f g r h in
      let (_, _, _, _, _, _, _, tick_kept) = same in
      ground (
        arith,
        tick_kept,
        e3,
        mark_tick_lem ended ev,
        apply_event_keeps_tick rolled ev now f applied e1,
        consume_fill_tick applied.trade_fill applied.state,
        apply_decision_keeps (consume_fill applied.trade_fill applied.state) ended r.decision g now
            _ decided e2,
      )

  -- A tick of the broker that is processed is at most ten whole minutes old and newer than the last
  -- tick of the account.
  pub process-tick :
      (a : Account D) (t : Tick D) (equity balance : D) (now : Timestamp) (f g : Uuid)
      (r : PipelineResult D)
      → process services a (tick t equity balance) now f g ≡ ok r
      → (is_stale t.quote.ts now ≡ false) × (is_out_of_order t.quote.ts a.last_tick_ts ≡ false)
  process-tick a t equity balance now f g r h =
      let (rolled, applied, ended, decided, same, e1, e2, e3, _, _, _) =
        stages services a (tick t equity balance) now f g r h in
      let (_, _, _, _, _, _, _, tick_kept) = same in
      ground (arith, tick_kept, apply_event_guards rolled t equity balance now f applied e1)

  -- After an emergency stop that is processed the account is stopped, unless the rules decide on the
  -- same event to fail it or to liquidate: then it is failed.
  pub process-emergency_stop :
      (a : Account D) (reason actor_id : String) (at now : Timestamp) (f g : Uuid)
      (r : PipelineResult D)
      → process services a (emergency_stop reason actor_id at) now f g ≡ ok r
      → r.account.status ≡ stop_status r.decision.kind
  process-emergency_stop a reason actor_id at now f g r h =
      let ev = emergency_stop reason actor_id at in
      let (rolled, applied, ended, decided, same, e1, e2, e3, _, _, _) =
        stages services a ev now f g r h in
      let fed = consume_fill applied.trade_fill applied.state in
      let stopped = apply_event_stops rolled reason actor_id at now f applied e1 in
      ground (
        arith,
        e3,
        mark_tick_keeps ended ev,
        apply_decision_stopped fed ended r.decision g now _ decided stopped e2,
      )

  -- An estimated tick changes neither the balance nor the equity; what it computes from the open
  -- positions goes to the estimated equity.
  pub process-tick_estimated :
      (a : Account D) (t : Tick D) (now : Timestamp) (f g : Uuid) (r : PipelineResult D)
      → process services a (tick_estimated t) now f g ≡ ok r
      → (r.account.balance ≡ a.balance)
        × (r.account.equity ≡ a.equity)
        × (r.account.estimated_equity ≡ equity_after_tick a.balance a.open_positions t.quote)
  process-tick_estimated a t now f g r h =
      let ev = tick_estimated t in
      let (rolled, applied, ended, decided, same, e1, e2, e3, _, _, _) =
        stages services a ev now f g r h in
      let (plan_kept, balance_kept, equity_kept, _, _, _, positions_kept, _) = same in
      let fed = consume_fill applied.trade_fill applied.state in
      ground (
        arith,
        e3,
        balance_kept,
        equity_kept,
        positions_kept,
        mark_tick_keeps ended ev,
        apply_event_estimates rolled t now f applied e1,
        apply_decision_keeps fed ended r.decision g now _ decided e2,
      )
