-- ===== src/Engine/Pipeline/Rollover.antt =====
-- engine/pipeline.rs: the days that an event finds unrolled are rolled over before it is applied.
pub mod Ends
use propfirm_engine.Base.{
  ℕ, zero, suc, ◌-◌, Bool, true, false, not, List, [], ◌∷◌, none, some, unwrap_or, if◌then◌else◌,
  ltb, leb, Result, ok, err, panicked, out_of_fuel, ◌>>=◌,
}
use propfirm_engine.Decimal.{Decimal}
use propfirm_engine.Core.Ids.{Timestamp}
use propfirm_engine.Core.Calendar.{Calendar}
use propfirm_engine.Core.Plan.{trading_day_start, next_trading_day_start}
use propfirm_engine.Core.Account.{Account}
use propfirm_engine.Core.Events.{DomainEvent, DomainEventKind, event}
use propfirm_engine.Engine.State.{rollover_day}

module _ {D : Type 0} ⦃d : Decimal D⦄ ⦃c : Calendar⦄ where
  -- One round of the loop, from the start of the current day.
  roll : Account D → Bool → Timestamp → Timestamp → Timestamp → Timestamp → Account D
  roll a first start event_ts event_day_start now =
      let had_trades = if first then not (d.is_zero a.today_realized_pnl) else false in
      let next = next_trading_day_start a.plan start in
      rollover_day a had_trades (some (if leb event_day_start next then event_ts else next)) now

  -- The loop. Without a current day its `unwrap` panics.
  catch_up : ℕ → Account D → Bool → Timestamp → Timestamp → Timestamp → Result (Account D)
  unfolding roll
  catch_up zero a first event_ts event_day_start now = elim a.current_trading_day_start [
    | none ↦ err panicked
    | some start ↦ if ltb start event_day_start then err out_of_fuel else ok a
  ]
  catch_up (suc fuel) a first event_ts event_day_start now = elim a.current_trading_day_start [
    | none ↦ err panicked
    | some start ↦
        let rest =
          catch_up fuel (roll a first start event_ts event_day_start now) false event_ts
            event_day_start now in
        if ltb start event_day_start then rest else ok a
  ]

  -- The rollover before an event that is not itself a rollover. Each round moves the current day on
  -- by at least a nanosecond, so the distance in time is fuel enough.
  unfoldable pub auto_rollover :
      Account D → Timestamp → Timestamp → Result (Account D × List (DomainEvent D))
  unfolding catch_up
  auto_rollover a event_ts now =
      let event_day_start = trading_day_start a.plan event_ts in
      let current = unwrap_or a.current_trading_day_start event_day_start in
      let rolled = catch_up (event_day_start - current) a true event_ts event_day_start now in
      if ltb current event_day_start
      then (rolled >>= λ b. ok (
        b,
        event b.id (DomainEventKind.day_rollover b.trading_day_index b.day_start_balance) event_ts
            ∷ [],
      ))
      else ok (a, [])
