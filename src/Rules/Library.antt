-- ===== src/Rules/Library.antt =====
-- rules/registry.rs: the standard rules. Each is the `impl Rule` of its evaluator, made from the
-- parameters of a pack entry or from none.
use propfirm_engine.Base.{ℕ, String, Bool, true, Option, none, unwrap_or, Result}
use propfirm_engine.Decimal.{Decimal}
use propfirm_engine.Core.Ids.{Uuid, Timestamp}
use propfirm_engine.Core.Calendar.{Calendar}
use propfirm_engine.Core.Account.{Account}
use propfirm_engine.Core.Violation.{ViolationKind}
use propfirm_engine.Rules.Verdict.{RuleVerdict, EvaluationScope}
use propfirm_engine.Rules.Params.{RuleParams, and_then}
use propfirm_engine.Rules.Context.{RuleContext}
use propfirm_engine.Rules.Registry.{Rule}
use propfirm_engine.Rules.Evaluators.TrailingDrawdown
use propfirm_engine.Rules.Evaluators.ProfitTarget
use propfirm_engine.Rules.Evaluators.MinTradingDays
use propfirm_engine.Rules.Evaluators.MinProfitableDays
use propfirm_engine.Rules.Evaluators.Consistency
use propfirm_engine.Rules.Evaluators.NewsTrading
use propfirm_engine.Rules.Evaluators.OvernightHolding
use propfirm_engine.Rules.Evaluators.WeekendHolding
use propfirm_engine.Rules.Evaluators.MaxPositionSize
use propfirm_engine.Rules.Evaluators.MaxOpenPositions
use propfirm_engine.Rules.Evaluators.MaxDailyTrades
use propfirm_engine.Rules.Evaluators.TimeLimit
use propfirm_engine.Rules.Evaluators.Cooldown
use propfirm_engine.Rules.Evaluators.Hedging
use propfirm_engine.Rules.Evaluators.GridTrading
use propfirm_engine.Rules.Evaluators.CopyTrading
use propfirm_engine.Rules.Evaluators.StopLossRequired
use propfirm_engine.Rules.Evaluators.TakeProfitRequired
use propfirm_engine.Rules.Evaluators.HftScalping
use propfirm_engine.Rules.Evaluators.PerTradeMaxLoss
use propfirm_engine.Rules.Evaluators.Inactivity
use propfirm_engine.Rules.Evaluators.MaxTotalLots
use propfirm_engine.Rules.Evaluators.CrossAccountHedging
use propfirm_engine.Rules.Evaluators.LowcapExposure
use propfirm_engine.Rules.Evaluators.TradingHours
use propfirm_engine.Rules.Evaluators.Margin

-- What the rules read of other crates and of the wall clock: the id `RuleId::named` of a name, a
-- decimal number in a JSON text under a key, the natural number under `max_closes_per_minute`,
-- `to_ascii_lowercase`, and the time.
pub record Outside (D : Type 0) : Type 0 where
  pub named : String → Uuid
  pub json_decimal : String → String → Option D
  pub max_closes : String → Option ℕ
  pub lowercase : String → String
  pub now : Timestamp

module _ {D : Type 0} where
  -- A rule that is enabled by the account.
  abbrev rule_of :
      Uuid
      → String
      → ViolationKind
      → EvaluationScope
      → ℕ
      → Option String
      → (Account D → Bool)
      → (Uuid → RuleContext D → Result (RuleVerdict D))
      → Rule D
  rule_of id name kind scope priority failure_policy is_enabled evaluate = record {
    id = id;
    name = name;
    kind = kind;
    scope = scope;
    priority = priority;
    failure_policy = failure_policy;
    is_enabled = λ ctx. is_enabled ctx.account;
    evaluate = evaluate;
  }

  abbrev policy_of : Option (RuleParams D) → Option String
  policy_of params = and_then params (λ p. p.failure_policy)

  abbrev priority_or : ℕ → Option (RuleParams D) → ℕ
  priority_or priority params = unwrap_or (and_then params (λ p. p.priority)) priority

module _ {D : Type 0} ⦃d : Decimal D⦄ ⦃c : Calendar⦄ (outside : Outside D)
    (params : Option (RuleParams D)) where
  unfoldable pub trailing_drawdown_rule : Rule D
  trailing_drawdown_rule =
      rule_of (outside.named "trailing_drawdown") "Trailing Drawdown"
        ViolationKind.trailing_drawdown EvaluationScope.on_tick 100 (policy_of params)
        (TrailingDrawdown.is_enabled params) (TrailingDrawdown.evaluate params)

  unfoldable pub profit_target_rule : Rule D
  profit_target_rule =
      rule_of (outside.named "profit_target") "Profit Target" ViolationKind.profit_target_missed
        EvaluationScope.on_tick 100 (policy_of params) (ProfitTarget.is_enabled params)
        (ProfitTarget.evaluate params)

  unfoldable pub min_trading_days_rule : Rule D
  min_trading_days_rule =
      rule_of (outside.named "min_trading_days") "Minimum Trading Days"
        ViolationKind.min_trading_days EvaluationScope.periodic 100 (policy_of params)
        (MinTradingDays.is_enabled params) (MinTradingDays.evaluate params)

  unfoldable pub min_profitable_days_rule : Rule D
  min_profitable_days_rule =
      rule_of (outside.named "min_profitable_days") "Minimum Profitable Trading Days"
        ViolationKind.min_profitable_days EvaluationScope.periodic 100 (policy_of params)
        (MinProfitableDays.is_enabled params) (MinProfitableDays.evaluate params)

  unfoldable pub consistency_rule : Rule D
  consistency_rule =
      rule_of (outside.named "consistency") "Consistency" ViolationKind.consistency
        EvaluationScope.periodic 100 (policy_of params) (Consistency.is_enabled params)
        (Consistency.evaluate params)

  unfoldable pub news_trading_rule : Rule D
  news_trading_rule =
      rule_of (outside.named "news_trading") "News Trading" ViolationKind.news_trading
        EvaluationScope.pre_trade 100 (policy_of params) (NewsTrading.is_enabled params)
        (NewsTrading.evaluate params)

  unfoldable pub overnight_holding_rule : Rule D
  overnight_holding_rule =
      rule_of (outside.named "overnight_holding") "Overnight Holding"
        ViolationKind.overnight_holding EvaluationScope.on_tick 100 (policy_of params)
        (OvernightHolding.is_enabled params) (OvernightHolding.evaluate params)

  unfoldable pub weekend_holding_rule : Rule D
  weekend_holding_rule =
      rule_of (outside.named "weekend_holding") "Weekend Holding" ViolationKind.weekend_holding
        EvaluationScope.on_tick 100 (policy_of params) (WeekendHolding.is_enabled params)
        (WeekendHolding.evaluate params)

  unfoldable pub max_position_size_rule : Rule D
  max_position_size_rule =
      rule_of (outside.named "max_position_size") "Max Position Size"
        ViolationKind.max_position_size EvaluationScope.pre_trade 100 (policy_of params)
        (MaxPositionSize.is_enabled params) (MaxPositionSize.evaluate params)

  unfoldable pub max_open_positions_rule : Rule D
  max_open_positions_rule =
      rule_of (outside.named "max_open_positions") "Max Open Positions"
        ViolationKind.max_open_positions EvaluationScope.pre_trade 100 (policy_of params)
        (MaxOpenPositions.is_enabled params) (MaxOpenPositions.evaluate params)

  unfoldable pub max_daily_trades_rule : Rule D
  max_daily_trades_rule =
      rule_of (outside.named "max_daily_trades") "Max Daily Trades" ViolationKind.max_daily_trades
        EvaluationScope.pre_trade 100 (policy_of params) (MaxDailyTrades.is_enabled params)
        (MaxDailyTrades.evaluate params)

  unfoldable pub time_limit_rule : Rule D
  time_limit_rule =
      rule_of (outside.named "time_limit") "Time Limit" ViolationKind.time_limit
        EvaluationScope.on_tick 100 (policy_of params) (TimeLimit.is_enabled params)
        (TimeLimit.evaluate outside.now params)

  unfoldable pub cooldown_rule : Rule D
  cooldown_rule =
      rule_of (outside.named "cooldown") "Cooldown" ViolationKind.cooldown EvaluationScope.pre_trade
        100 (policy_of params) (Cooldown.is_enabled params) (Cooldown.evaluate params)

  unfoldable pub hedging_rule : Rule D
  hedging_rule =
      rule_of (outside.named "hedging") "Hedging" ViolationKind.hedging EvaluationScope.pre_trade
        100 (policy_of params) (Hedging.is_enabled params) (Hedging.evaluate params)

  unfoldable pub grid_trading_rule : Rule D
  grid_trading_rule =
      rule_of (outside.named "grid_trading") "Grid Trading" ViolationKind.grid_trading
        EvaluationScope.pre_trade 100 (policy_of params) (GridTrading.is_enabled params)
        (GridTrading.evaluate outside.json_decimal outside.lowercase params)

  unfoldable pub copy_trading_rule : Rule D
  copy_trading_rule =
      rule_of (outside.named "copy_trading") "Copy Trading" ViolationKind.copy_trading
        EvaluationScope.post_trade 100 (policy_of params) (CopyTrading.is_enabled params)
        (CopyTrading.evaluate (λ text. outside.json_decimal text "window_seconds") params)

  unfoldable pub stop_loss_required_rule : Rule D
  stop_loss_required_rule =
      rule_of (outside.named "sl_required") "Stop-Loss Required" ViolationKind.missing_stop_loss
        EvaluationScope.pre_trade 100 (policy_of params) (StopLossRequired.is_enabled params)
        (StopLossRequired.evaluate params)

  unfoldable pub take_profit_required_rule : Rule D
  take_profit_required_rule =
      rule_of (outside.named "tp_required") "Take-Profit Required" ViolationKind.missing_take_profit
        EvaluationScope.pre_trade 100 (policy_of params) (TakeProfitRequired.is_enabled params)
        (TakeProfitRequired.evaluate params)

  unfoldable pub hft_scalping_rule : Rule D
  hft_scalping_rule =
      rule_of (outside.named "hft_scalping") "HFT / Scalping" ViolationKind.custom
        EvaluationScope.post_trade (priority_or 100 params) (policy_of params)
        (HftScalping.is_enabled params) (HftScalping.evaluate outside.max_closes params)

  unfoldable pub per_trade_max_loss_rule : Rule D
  per_trade_max_loss_rule =
      rule_of (outside.named "per_trade_max_loss") "Per-Trade Max Loss" ViolationKind.custom
        EvaluationScope.post_trade (priority_or 800 params) (policy_of params)
        (PerTradeMaxLoss.is_enabled params) (PerTradeMaxLoss.evaluate params)

  unfoldable pub inactivity_rule : Rule D
  inactivity_rule =
      rule_of (outside.named "inactivity") "Inactivity Termination" ViolationKind.custom
        EvaluationScope.periodic (priority_or 500 params) (policy_of params)
        (Inactivity.is_enabled params) (Inactivity.evaluate params)

  unfoldable pub max_total_lots_rule : Rule D
  max_total_lots_rule =
      rule_of (outside.named "max_total_lots") "Max Total Lots" ViolationKind.max_lot_size
        EvaluationScope.pre_trade 100 (policy_of params) (MaxTotalLots.is_enabled params)
        (MaxTotalLots.evaluate params)

  unfoldable pub cross_account_hedging_rule : Rule D
  cross_account_hedging_rule =
      rule_of (outside.named "cross_account_hedging") "Cross-Account Hedging"
        ViolationKind.cross_account_hedging EvaluationScope.on_tick 100 (policy_of params)
        (CrossAccountHedging.is_enabled params) (CrossAccountHedging.evaluate params)

  unfoldable pub lowcap_exposure_rule : Rule D
  lowcap_exposure_rule =
      rule_of (outside.named "lowcap_exposure") "Low-Capitalisation Asset Exposure"
        ViolationKind.lowcap_exposure EvaluationScope.on_tick 100 (policy_of params)
        (LowcapExposure.is_enabled params) (LowcapExposure.evaluate params)

module _ {D : Type 0} ⦃d : Decimal D⦄ ⦃c : Calendar⦄ (outside : Outside D) where
  unfoldable pub trading_hours_rule : Rule D
  trading_hours_rule =
      rule_of (outside.named "trading_hours") "Trading Hours" ViolationKind.custom
        EvaluationScope.pre_trade 100 none TradingHours.is_enabled TradingHours.evaluate

  -- `MarginRule` is always enabled.
  unfoldable pub margin_rule : Rule D
  margin_rule =
      rule_of (outside.named "margin") "Margin" ViolationKind.custom EvaluationScope.pre_trade 100
        none (λ a. true) Margin.evaluate
