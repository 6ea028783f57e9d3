-- ===== src/Engine/Pipeline/Examples.antt =====
-- The pipeline on concrete accounts and events.
use propfirm_engine.Base.{
  ℕ, ◌*◌, ◌⊎◌, ◌≤◌, unwrap_or, arith, ◌≡◌, refl, true, false, List, [], ◌∷◌, Option, none, some,
  Result, ok, is_ok, ◌+◌, ◌-◌,
}
use propfirm_engine.Base.Int.{pos}
use propfirm_engine.Decimal.Scaled.{Scaled, scaled_decimal}
use propfirm_engine.Fixtures.{
  calendar, closing_trade, account, quote, money, noon, value, value_lem,
}
use propfirm_engine.Core.Account.{Account, is_breach_terminal}
use propfirm_engine.Core.Ids.{nanos_per_minute}
use propfirm_engine.Rules.Registry.{RuleRegistry, empty, register}
use propfirm_engine.Rules.Registry
use propfirm_engine.Rules.Registry.Estimates.{
  max_drawdown_rule, daily_drawdown_rule, drawdown_rules_spare,
}
use propfirm_engine.Rules.MaxDrawdown
use propfirm_engine.Rules.DailyDrawdown
use propfirm_engine.Engine.Pipeline.Events.{
  PipelineEvent, tick, tick_estimated, is_stale, is_out_of_order,
}
use propfirm_engine.Engine.Pipeline.Applied.{stop_status}
use propfirm_engine.Engine.Pipeline.Process.{Services, PipelineResult, process}
use propfirm_engine.Engine.Pipeline.Process.Estimated.{with_registry, process_estimated_spares}
use propfirm_engine.Engine.Pipeline.Process.Results.{
  last_tick-process, process-tick_estimated, process-emergency_stop,
}
use propfirm_engine.Engine.Pipeline.Process.Fills.{process-trade_filled, process_exit, has_position}
use propfirm_engine.Engine.Pipeline.Process.Replay.{
  Call, run, run_increasing, broker_times, AreIncreasing,
}
use propfirm_engine.Engine.Pipeline.Rollover.Ends.{auto_rollover_ends, SameMoney, IsFreshDay}
use propfirm_engine.Core.Events.{DomainEvent}
use propfirm_engine.Core.Calendar.{utc-IsCalendar}
use propfirm_engine.Engine.Decision.{is_terminating, from_reports, account_status_target}
use propfirm_engine.Engine.Decision.Winner.{violations_in}
use propfirm_engine.Engine.Pipeline.Rollover.{auto_rollover}
use propfirm_engine.Engine.Pipeline.Events.{apply_event}
use propfirm_engine.Engine.Pipeline.Apply.{apply_decision}
use propfirm_engine.Core.Plan.{trading_day_start}
use propfirm_engine.Engine.State.{update_equity, update_balance, equity_after_tick}

-- A registry of the two drawdown rules, and services that store and notify nothing.
abbrev rules : RuleRegistry Scaled
rules = register (register empty (max_drawdown_rule none 41)) (daily_drawdown_rule none 42)

abbrev services : Services Scaled
services = with_registry (λ id n. ok []) (λ v. ok tt) (λ id. id + 100) rules

abbrev process_at : PipelineEvent Scaled → Result (PipelineResult Scaled)
process_at ev = process services account ev (noon 10 + nanos_per_minute) 51 52

abbrev broker_tick : PipelineEvent Scaled
broker_tick = tick (quote (noon 10 + nanos_per_minute)) (money 94000) (money 100000)

-- A fall of 6 % in a day is a breach of the daily limit of 5 %.
tick_accepted : is_ok (process_at broker_tick) ≡ true
unfolding process with_registry register empty max_drawdown_rule daily_drawdown_rule
    Registry.evaluate MaxDrawdown.evaluate DailyDrawdown.evaluate auto_rollover trading_day_start
    apply_event update_equity update_balance from_reports apply_decision account_status_target
    violations_in propfirm_engine.Engine.Decision.pick_winner MaxDrawdown.is_enabled
    DailyDrawdown.is_enabled propfirm_engine.Engine.Decision.sort_report
    propfirm_engine.Base.Int.◌+ℤ◌ propfirm_engine.Base.Int.◌-ℤ◌
tick_accepted = refl

abbrev ticked : PipelineResult Scaled
ticked = value (process_at broker_tick) tick_accepted

last_tick-process_example : ticked.account.last_tick_ts ≡ some (noon 10 + nanos_per_minute)
last_tick-process_example =
    last_tick-process services account broker_tick (noon 10 + nanos_per_minute) 51 52 ticked
      (value_lem (process_at broker_tick) tick_accepted)

abbrev estimate : PipelineEvent Scaled
estimate = tick_estimated (quote (noon 10 + nanos_per_minute))

estimate_accepted : is_ok (process_at estimate) ≡ true
unfolding process with_registry register empty max_drawdown_rule daily_drawdown_rule
    Registry.evaluate MaxDrawdown.evaluate DailyDrawdown.evaluate auto_rollover trading_day_start
    apply_event update_equity update_balance from_reports apply_decision account_status_target
    violations_in propfirm_engine.Engine.Decision.pick_winner MaxDrawdown.is_enabled
    DailyDrawdown.is_enabled propfirm_engine.Engine.Decision.sort_report
    propfirm_engine.Base.Int.◌+ℤ◌ propfirm_engine.Base.Int.◌-ℤ◌
    propfirm_engine.Engine.State.set_estimated_equity
estimate_accepted = refl

abbrev estimated_result : PipelineResult Scaled
estimated_result = value (process_at estimate) estimate_accepted

process-tick_estimated_example :
    (estimated_result.account.balance ≡ money 100000)
    × (estimated_result.account.equity ≡ money 100000)
    × (estimated_result.account.estimated_equity
        ≡ equity_after_tick (money 100000) [] (quote (noon 10 + nanos_per_minute)).quote)
process-tick_estimated_example =
    process-tick_estimated services account (quote (noon 10 + nanos_per_minute))
      (noon 10 + nanos_per_minute) 51 52 estimated_result
      (value_lem (process_at estimate) estimate_accepted)

process_estimated_spares_example :
    (is_terminating estimated_result.decision.kind ≡ false)
    × ((is_breach_terminal estimated_result.account.status ≡ false)
        ⊎ (estimated_result.account.status ≡ account.status))
unfolding register empty max_drawdown_rule daily_drawdown_rule
process_estimated_spares_example =
    process_estimated_spares (λ id n. ok []) (λ v. ok tt) (λ id. id + 100) rules account
      (quote (noon 10 + nanos_per_minute)) (noon 10 + nanos_per_minute) 51 52 estimated_result
      ((drawdown_rules_spare none 41).0, ((drawdown_rules_spare none 42).1, tt))
      (value_lem (process_at estimate) estimate_accepted)

abbrev stop : PipelineEvent Scaled
stop = PipelineEvent.emergency_stop "feed" "ops" (noon 10)

stop_accepted : is_ok (process_at stop) ≡ true
unfolding process with_registry register empty max_drawdown_rule daily_drawdown_rule
    Registry.evaluate MaxDrawdown.evaluate DailyDrawdown.evaluate auto_rollover trading_day_start
    apply_event update_equity update_balance from_reports apply_decision account_status_target
    violations_in propfirm_engine.Engine.Decision.pick_winner MaxDrawdown.is_enabled
    DailyDrawdown.is_enabled propfirm_engine.Engine.Decision.sort_report
    propfirm_engine.Base.Int.◌+ℤ◌ propfirm_engine.Base.Int.◌-ℤ◌
    propfirm_engine.Engine.State.emergency_stop
stop_accepted = refl

process-emergency_stop_example :
    let result = value (process_at stop) stop_accepted in
    result.account.status ≡ stop_status result.decision.kind
process-emergency_stop_example =
    process-emergency_stop services account "feed" "ops" (noon 10) (noon 10 + nanos_per_minute) 51
      52 (value (process_at stop) stop_accepted) (value_lem (process_at stop) stop_accepted)

abbrev closing : PipelineEvent Scaled
closing = PipelineEvent.trade_filled closing_trade

closing_accepted : is_ok (process_at closing) ≡ true
unfolding process with_registry register empty max_drawdown_rule daily_drawdown_rule
    Registry.evaluate MaxDrawdown.evaluate DailyDrawdown.evaluate auto_rollover trading_day_start
    apply_event update_equity update_balance from_reports apply_decision account_status_target
    violations_in propfirm_engine.Engine.Decision.pick_winner MaxDrawdown.is_enabled
    DailyDrawdown.is_enabled propfirm_engine.Engine.Decision.sort_report
    propfirm_engine.Base.Int.◌+ℤ◌ propfirm_engine.Base.Int.◌-ℤ◌
    propfirm_engine.Engine.Pipeline.Events.position_of_fill
    propfirm_engine.Engine.State.mark_active_trading_day
    propfirm_engine.Engine.State.apply_realized_pnl
closing_accepted = refl

abbrev closed : PipelineResult Scaled
closed = value (process_at closing) closing_accepted

process-trade_filled_example :
    closed.account.balance
    ≡ scaled_decimal.add
        (money 100000)
        (scaled_decimal.sub (scaled_decimal.sub (money 250) (money 7)) (money 0))
process-trade_filled_example =
    process-trade_filled services account closing_trade (noon 10 + nanos_per_minute) 51 52 closed
      (value_lem (process_at closing) closing_accepted)

process_exit_example : has_position 31 closed.account.open_positions ≡ false
process_exit_example =
    process_exit services account closing_trade
      (record {
        position_id = 31;
        realized_pnl = money 250;
        closed_quantity = money 1000;
        entry_price = money 1;
        exit_price = money 1;
      })
      (noon 10 + nanos_per_minute) 51 52 closed refl refl
      (value_lem (process_at closing) closing_accepted)

-- A run of a tick and, a minute later, another one, where no rule is registered.
abbrev quiet : Services Scaled
quiet = record {
  recent = λ id n. ok [];
  evaluate_rules = λ ctx. ok [];
  notify_violation = λ v. ok tt;
}

abbrev call : ℕ → Call Scaled
call n = record {
  event = tick (quote (noon 10 + n * nanos_per_minute)) (money 99000) (money 100000);
  now = noon 10 + n * nanos_per_minute;
  fresh_position = 51;
  fresh_instruction = 52;
}

abbrev calls : List (Call Scaled)
calls = call 1 ∷ call 2 ∷ []

run_accepted : is_ok (run quiet account calls) ≡ true
unfolding run process auto_rollover trading_day_start
    propfirm_engine.Engine.Pipeline.Events.event_timestamp apply_event apply_decision from_reports
    propfirm_engine.Engine.Decision.pick_winner update_balance update_equity violations_in
    account_status_target
run_accepted = refl

run_increasing_example : AreIncreasing (some (noon 10)) (broker_times calls)
run_increasing_example =
    run_increasing quiet account (value (run quiet account calls) run_accepted) calls refl
      (value_lem (run quiet account calls) run_accepted)

-- Three days later, in one event.
auto_rollover_ends_example :
    let day = trading_day_start account.plan (noon 13) in
    (b : Account Scaled) × (es : List (DomainEvent Scaled)) × (auto_rollover account
        (noon 13)
        (noon 13)
      ≡ ok (b, es))
    × (day ≤ unwrap_or b.current_trading_day_start day)
    × ((b ≡ account) ⊎ ((b.current_trading_day_start ≡ some day) × IsFreshDay b))
    × (auto_rollover b (noon 13) (noon 13) ≡ ok (b, []))
    × SameMoney account b
auto_rollover_ends_example =
    auto_rollover_ends utc-IsCalendar account (noon 13) (noon 13) (omega arith)
