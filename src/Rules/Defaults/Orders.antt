-- ===== src/Rules/Defaults/Orders.antt =====
-- An order that the default rules of a plan let through.
use propfirm_engine.Base.{
  ℕ, suc, ◌+◌, ◌<◌, List, Bool, true, false, not, ◌||◌, [], some, none, ok, is_some, ◌≡◌, refl,
  arith, length,
}
use propfirm_engine.Decimal.Scaled.{Scaled, scaled_decimal}
use propfirm_engine.Fixtures.{calendar, plan, account, money, noon}
use propfirm_engine.Core.Plan.{ChallengePlan}
use propfirm_engine.Core.Trading.{OrderSide}
use propfirm_engine.Core.Order.{Order, OrderKind, OrderType, TimeInForce, OrderStatus}
use propfirm_engine.Rules.Verdict.{RuleReport}
use propfirm_engine.Rules.Context.{RuleContext, RuleContextKind, open_position_count}
use propfirm_engine.Rules.Registry.{run_rules, evaluate}
use propfirm_engine.Rules.Defaults.{with_default_rules_for_plan}
use propfirm_engine.Rules.Defaults.Admission.{within, within-evaluate}
use propfirm_engine.Rules.Defaults.Examples.{outside, context}
use propfirm_engine.Engine.Decision.{is_terminating, from_reports}

abbrev limited : ChallengePlan Scaled
limited = record plan {
  max_open_positions = some 2;
  max_daily_trades = some 5;
  require_stop_loss = true;
}

abbrev order : Order Scaled
order = record {
  id = 3;
  account_id = 1;
  symbol = "EURUSD";
  side = OrderSide.buy;
  kind = OrderKind.open_position;
  order_type = OrderType.market;
  quantity = money 1;
  tif = TimeInForce.gtc;
  stop_loss = some (money 1);
  take_profit = none;
  comment = none;
  submitted_at = noon 10;
  status = OrderStatus.pending;
  filled_quantity = money 0;
  avg_fill_price = none;
}

abbrev submitted : RuleContext Scaled
submitted = record context {
  account = record account { plan = limited };
  pending_order = some order;
  kind = RuleContextKind.on_order_submit;
}

abbrev reports : List (RuleReport Scaled)
reports = run_rules suc submitted (with_default_rules_for_plan outside limited).rules

reports_given : evaluate suc (with_default_rules_for_plan outside limited) submitted ≡ ok reports
unfolding evaluate
reports_given = refl

reports_mild : is_terminating (from_reports reports).kind ≡ false
unfolding propfirm_engine.Engine.Decision.is_terminating
    propfirm_engine.Engine.Decision.from_reports propfirm_engine.Engine.Decision.pick_winner
    propfirm_engine.Engine.Decision.sort_report propfirm_engine.Rules.Registry.run_rules
    propfirm_engine.Rules.Registry.register propfirm_engine.Rules.Registry.empty
    propfirm_engine.Rules.Registry.runs_in propfirm_engine.Rules.Registry.report_of
    propfirm_engine.Rules.Registry.verdict_of
    propfirm_engine.Rules.Defaults.with_default_rules_for_plan
    propfirm_engine.Rules.Defaults.is_dropped
    propfirm_engine.Rules.Registry.Estimates.max_drawdown_rule
    propfirm_engine.Rules.Registry.Estimates.daily_drawdown_rule propfirm_engine.Base.Int.◌+ℤ◌
    propfirm_engine.Base.Int.◌-ℤ◌ propfirm_engine.Rules.Params.pack_count
    propfirm_engine.Rules.Context.open_position_count propfirm_engine.Rules.MaxDrawdown.is_enabled
    propfirm_engine.Rules.DailyDrawdown.is_enabled
    propfirm_engine.Rules.Library.trailing_drawdown_rule
    propfirm_engine.Rules.Library.profit_target_rule
    propfirm_engine.Rules.Library.min_trading_days_rule
    propfirm_engine.Rules.Library.min_profitable_days_rule
    propfirm_engine.Rules.Library.consistency_rule propfirm_engine.Rules.Library.news_trading_rule
    propfirm_engine.Rules.Library.overnight_holding_rule
    propfirm_engine.Rules.Library.weekend_holding_rule
    propfirm_engine.Rules.Library.max_position_size_rule
    propfirm_engine.Rules.Library.max_open_positions_rule
    propfirm_engine.Rules.Library.max_daily_trades_rule
    propfirm_engine.Rules.Library.time_limit_rule propfirm_engine.Rules.Library.cooldown_rule
    propfirm_engine.Rules.Library.hedging_rule propfirm_engine.Rules.Library.grid_trading_rule
    propfirm_engine.Rules.Library.copy_trading_rule
    propfirm_engine.Rules.Library.stop_loss_required_rule
    propfirm_engine.Rules.Library.take_profit_required_rule
    propfirm_engine.Rules.Library.hft_scalping_rule
    propfirm_engine.Rules.Library.per_trade_max_loss_rule
    propfirm_engine.Rules.Library.inactivity_rule propfirm_engine.Rules.Library.max_total_lots_rule
    propfirm_engine.Rules.Library.cross_account_hedging_rule
    propfirm_engine.Rules.Library.lowcap_exposure_rule
    propfirm_engine.Rules.Library.trading_hours_rule propfirm_engine.Rules.Library.margin_rule
    propfirm_engine.Rules.Evaluators.ProfitTarget.is_enabled
    propfirm_engine.Rules.Evaluators.ProfitTarget.evaluate
    propfirm_engine.Rules.Evaluators.TrailingDrawdown.is_enabled
    propfirm_engine.Rules.Evaluators.TrailingDrawdown.evaluate
    propfirm_engine.Rules.Evaluators.MinTradingDays.is_enabled
    propfirm_engine.Rules.Evaluators.MinTradingDays.evaluate
    propfirm_engine.Rules.Evaluators.MinProfitableDays.is_enabled
    propfirm_engine.Rules.Evaluators.MinProfitableDays.evaluate
    propfirm_engine.Rules.Evaluators.Consistency.is_enabled
    propfirm_engine.Rules.Evaluators.Consistency.evaluate
    propfirm_engine.Rules.Evaluators.TimeLimit.is_enabled
    propfirm_engine.Rules.Evaluators.TimeLimit.evaluate
    propfirm_engine.Rules.Evaluators.Inactivity.is_enabled
    propfirm_engine.Rules.Evaluators.Inactivity.evaluate
    propfirm_engine.Rules.Evaluators.MaxDailyTrades.is_enabled
    propfirm_engine.Rules.Evaluators.MaxDailyTrades.evaluate
    propfirm_engine.Rules.Evaluators.MaxOpenPositions.is_enabled
    propfirm_engine.Rules.Evaluators.MaxOpenPositions.evaluate
    propfirm_engine.Rules.Evaluators.Cooldown.is_enabled
    propfirm_engine.Rules.Evaluators.Cooldown.evaluate
    propfirm_engine.Rules.Evaluators.Hedging.is_enabled
    propfirm_engine.Rules.Evaluators.Hedging.evaluate
    propfirm_engine.Rules.Evaluators.StopLossRequired.is_enabled
    propfirm_engine.Rules.Evaluators.StopLossRequired.evaluate
    propfirm_engine.Rules.Evaluators.TakeProfitRequired.is_enabled
    propfirm_engine.Rules.Evaluators.TakeProfitRequired.evaluate
    propfirm_engine.Rules.Evaluators.OvernightHolding.is_enabled
    propfirm_engine.Rules.Evaluators.OvernightHolding.evaluate
    propfirm_engine.Rules.Evaluators.WeekendHolding.is_enabled
    propfirm_engine.Rules.Evaluators.WeekendHolding.evaluate
    propfirm_engine.Rules.Evaluators.NewsTrading.is_enabled
    propfirm_engine.Rules.Evaluators.NewsTrading.evaluate
    propfirm_engine.Rules.Evaluators.MaxPositionSize.is_enabled
    propfirm_engine.Rules.Evaluators.MaxPositionSize.evaluate
    propfirm_engine.Rules.Evaluators.HftScalping.is_enabled
    propfirm_engine.Rules.Evaluators.HftScalping.evaluate
    propfirm_engine.Rules.Evaluators.PerTradeMaxLoss.is_enabled
    propfirm_engine.Rules.Evaluators.PerTradeMaxLoss.evaluate
    propfirm_engine.Rules.Evaluators.MaxTotalLots.is_enabled
    propfirm_engine.Rules.Evaluators.MaxTotalLots.evaluate
    propfirm_engine.Rules.Evaluators.TradingHours.is_enabled
    propfirm_engine.Rules.Evaluators.TradingHours.evaluate
    propfirm_engine.Rules.Evaluators.Margin.evaluate
    propfirm_engine.Rules.Evaluators.LowcapExposure.is_enabled
    propfirm_engine.Rules.Evaluators.LowcapExposure.evaluate
    propfirm_engine.Rules.Evaluators.CrossAccountHedging.is_enabled
    propfirm_engine.Rules.Evaluators.CrossAccountHedging.evaluate
    propfirm_engine.Rules.Evaluators.CopyTrading.is_enabled
    propfirm_engine.Rules.Evaluators.CopyTrading.evaluate
    propfirm_engine.Rules.Evaluators.GridTrading.is_enabled
    propfirm_engine.Rules.Evaluators.GridTrading.evaluate
reports_mild = refl

within-evaluate_example :
    (within (some 2) (open_position_count submitted + 1) ≡ true)
    × (within (some 5) (length submitted.today_trades + 1) ≡ true)
    × (not true || is_some order.stop_loss ≡ true)
unfolding open_position_count
within-evaluate_example =
    within-evaluate outside refl suc limited submitted order reports refl refl refl refl
      (omega arith) (omega arith) reports_given reports_mild
