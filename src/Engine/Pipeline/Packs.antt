-- ===== src/Engine/Pipeline/Packs.antt =====
-- The pipeline on the rules of a concrete pack: an estimated tick after a fall of the equity.
use propfirm_engine.Base.{◌≡◌, refl, true, false, [], any, ◌+◌, Result, ok, is_ok}
use propfirm_engine.Decimal.Scaled.{Scaled, scaled_decimal}
use propfirm_engine.Fixtures.{calendar, account, quote, money, noon, value, value_lem}
use propfirm_engine.Core.Account.{Account}
use propfirm_engine.Core.Ids.{nanos_per_minute}
use propfirm_engine.Rules.Defaults.Examples.{outside, pack, built, build_from_pack-pack}
use propfirm_engine.Rules.Defaults.Estimates.{liquidates}
use propfirm_engine.Engine.Pipeline.Applied.{closes_positions}
use propfirm_engine.Engine.Pipeline.Events.{tick_estimated}
use propfirm_engine.Engine.Pipeline.Process.{PipelineResult, process}
use propfirm_engine.Engine.Pipeline.Process.Estimated.{with_registry}
use propfirm_engine.Engine.Pipeline.Process.Closing.{closes-process}

abbrev low : Account Scaled
low = record account { equity = money 50000; balance = money 50000 }

abbrev outcome : Result (PipelineResult Scaled)
outcome =
    process (with_registry (λ id n. ok []) (λ v. ok tt) (λ id. id + 100) built) low
      (tick_estimated (quote (noon 10 + nanos_per_minute))) (noon 10 + nanos_per_minute) 51 52

outcome_accepted : is_ok outcome ≡ true
unfolding process with_registry propfirm_engine.Engine.Pipeline.Rollover.auto_rollover
    propfirm_engine.Core.Plan.trading_day_start
    propfirm_engine.Engine.Pipeline.Events.event_timestamp
    propfirm_engine.Engine.Pipeline.Events.apply_event propfirm_engine.Rules.Registry.evaluate
    propfirm_engine.Engine.Pipeline.Apply.apply_decision propfirm_engine.Engine.Decision.pick_winner
    propfirm_engine.Rules.Registry.register propfirm_engine.Rules.Registry.empty
    propfirm_engine.Rules.Registry.Estimates.max_drawdown_rule
    propfirm_engine.Rules.Library.per_trade_max_loss_rule
    propfirm_engine.Rules.MaxDrawdown.is_enabled propfirm_engine.Rules.Pack.from_entry
    propfirm_engine.Rules.Evaluators.PerTradeMaxLoss.is_enabled
    propfirm_engine.Engine.Decision.sort_report propfirm_engine.Rules.MaxDrawdown.evaluate
    propfirm_engine.Rules.Evaluators.PerTradeMaxLoss.evaluate
    propfirm_engine.Engine.Decision.from_reports propfirm_engine.Engine.State.set_estimated_equity
    propfirm_engine.Engine.Decision.account_status_target
    propfirm_engine.Engine.Decision.Winner.violations_in propfirm_engine.Base.Int.◌+ℤ◌
    propfirm_engine.Base.Int.◌-ℤ◌ propfirm_engine.Rules.Params.effective_pct
    propfirm_engine.Rules.Params.effective_money
outcome_accepted = refl

abbrev result : PipelineResult Scaled
result = value outcome outcome_accepted

closes-process_example :
    (closes_positions result.decision.kind ≡ false)
    × (any (λ report. liquidates report.verdict) result.reports ≡ false)
closes-process_example =
    closes-process outside pack built (λ id n. ok []) (λ v. ok tt) (λ id. id + 100) low
      (quote (noon 10 + nanos_per_minute)) (noon 10 + nanos_per_minute) 51 52 result
      build_from_pack-pack (value_lem outcome outcome_accepted)
