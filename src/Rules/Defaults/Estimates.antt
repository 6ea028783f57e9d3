-- ===== src/Rules/Defaults/Estimates.antt =====
-- No rule liquidates an account on an equity that is only estimated.
use propfirm_engine.Base.{Bool, true, false, Option, none, ◌≡◌, arith, ok, err, Result}
use propfirm_engine.Decimal.{Decimal}
use propfirm_engine.Core.Ids.{Uuid}
use propfirm_engine.Core.Calendar.{Calendar}
use propfirm_engine.Rules.Params.{RuleParams}
use propfirm_engine.Rules.Verdict.{RuleVerdict}
use propfirm_engine.Rules.Context.{RuleContext, require_broker_equity}
use propfirm_engine.Rules.Registry.{Rule}
use propfirm_engine.Rules.MaxDrawdown
use propfirm_engine.Rules.DailyDrawdown
use propfirm_engine.Rules.Registry.Estimates.{max_drawdown_rule, daily_drawdown_rule}
use propfirm_engine.Rules.Library.{
  Outside, trailing_drawdown_rule, profit_target_rule, min_trading_days_rule,
  min_profitable_days_rule, consistency_rule, news_trading_rule, overnight_holding_rule,
  weekend_holding_rule, max_position_size_rule, max_open_positions_rule, max_daily_trades_rule,
  time_limit_rule, cooldown_rule, hedging_rule, grid_trading_rule, copy_trading_rule,
  stop_loss_required_rule, take_profit_required_rule, hft_scalping_rule, per_trade_max_loss_rule,
  inactivity_rule, max_total_lots_rule, trading_hours_rule, margin_rule, cross_account_hedging_rule,
  lowcap_exposure_rule,
}
use propfirm_engine.Rules.Evaluators.TrailingDrawdown
use propfirm_engine.Rules.Evaluators.ProfitTarget
use propfirm_engine.Rules.Evaluators.MinTradingDays
use propfirm_engine.Rules.Evaluators.MinProfitableDays
use propfirm_engine.Rules.Evaluators.Consistency
use propfirm_engine.Rules.Evaluators.NewsTrading
use propfirm_engine.Rules.Evaluators.OvernightHolding
use propfirm_engine.Rules.Evaluators.WeekendHolding
use propfirm_engine.Rules.Evaluators.MaxPositionSize
use propfirm_engine.Rules.Evaluators.MaxOpenPositions
use propfirm_engine.Rules.Evaluators.MaxDailyTrades
use propfirm_engine.Rules.Evaluators.TimeLimit
use propfirm_engine.Rules.Evaluators.Cooldown
use propfirm_engine.Rules.Evaluators.Hedging
use propfirm_engine.Rules.Evaluators.GridTrading
use propfirm_engine.Rules.Evaluators.CopyTrading
use propfirm_engine.Rules.Evaluators.StopLossRequired
use propfirm_engine.Rules.Evaluators.TakeProfitRequired
use propfirm_engine.Rules.Evaluators.HftScalping
use propfirm_engine.Rules.Evaluators.PerTradeMaxLoss
use propfirm_engine.Rules.Evaluators.Inactivity
use propfirm_engine.Rules.Evaluators.MaxTotalLots
use propfirm_engine.Rules.Evaluators.TradingHours
use propfirm_engine.Rules.Evaluators.Margin
use propfirm_engine.Rules.Evaluators.CrossAccountHedging
use propfirm_engine.Rules.Evaluators.LowcapExposure

-- `Liquidate` and `Emergency`, which close the positions of the account.
abbrev pub liquidates : {D : Type 0} → RuleVerdict D → Bool
liquidates (RuleVerdict.liquidate _) = true
liquidates (RuleVerdict.emergency _) = true
liquidates _ = false

abbrev liquidates_ok : {D : Type 0} → Result (RuleVerdict D) → Bool
liquidates_ok (ok v) = liquidates v
liquidates_ok (err _) = false

module _ {D : Type 0} where
  -- Without the equity of the broker, the rule never liquidates.
  unfoldable pub NeverLiquidates : Rule D → Type 0
  NeverLiquidates rule =
      (fresh : Uuid) (ctx : RuleContext D)
      → require_broker_equity ctx ≡ none
      → liquidates_ok (rule.evaluate fresh ctx) ≡ false

module _ {D : Type 0} ⦃d : Decimal D⦄ ⦃c : Calendar⦄ (outside : Outside D) where
  pub daily_drawdown_rule-NeverLiquidates :
      (params : Option (RuleParams D))
      → NeverLiquidates (daily_drawdown_rule params (outside.named "daily_drawdown"))
  unfolding NeverLiquidates daily_drawdown_rule DailyDrawdown.evaluate
  daily_drawdown_rule-NeverLiquidates params fresh ctx e = ground (arith, e)

  pub max_drawdown_rule-NeverLiquidates :
      (params : Option (RuleParams D))
      → NeverLiquidates (max_drawdown_rule params (outside.named "max_drawdown"))
  unfolding NeverLiquidates max_drawdown_rule MaxDrawdown.evaluate
  max_drawdown_rule-NeverLiquidates params fresh ctx e = ground (arith, e)

  pub trailing_drawdown_rule-NeverLiquidates :
      (params : Option (RuleParams D)) → NeverLiquidates (trailing_drawdown_rule outside params)
  unfolding NeverLiquidates trailing_drawdown_rule TrailingDrawdown.evaluate
  trailing_drawdown_rule-NeverLiquidates params fresh ctx e = ground (arith, e)

  pub profit_target_rule-NeverLiquidates :
      (params : Option (RuleParams D)) → NeverLiquidates (profit_target_rule outside params)
  unfolding NeverLiquidates profit_target_rule ProfitTarget.evaluate
  profit_target_rule-NeverLiquidates params fresh ctx e = ground (arith, e)

  pub min_trading_days_rule-NeverLiquidates :
      (params : Option (RuleParams D)) → NeverLiquidates (min_trading_days_rule outside params)
  unfolding NeverLiquidates min_trading_days_rule MinTradingDays.evaluate
  min_trading_days_rule-NeverLiquidates params fresh ctx e = ground (arith, e)

  pub min_profitable_days_rule-NeverLiquidates :
      (params : Option (RuleParams D)) → NeverLiquidates (min_profitable_days_rule outside params)
  unfolding NeverLiquidates min_profitable_days_rule MinProfitableDays.evaluate
  min_profitable_days_rule-NeverLiquidates params fresh ctx e = ground (arith, e)

  pub consistency_rule-NeverLiquidates :
      (params : Option (RuleParams D)) → NeverLiquidates (consistency_rule outside params)
  unfolding NeverLiquidates consistency_rule Consistency.evaluate
  consistency_rule-NeverLiquidates params fresh ctx e = ground (arith, e)

  pub news_trading_rule-NeverLiquidates :
      (params : Option (RuleParams D)) → NeverLiquidates (news_trading_rule outside params)
  unfolding NeverLiquidates news_trading_rule NewsTrading.evaluate
  news_trading_rule-NeverLiquidates params fresh ctx e = ground (arith, e)

  pub overnight_holding_rule-NeverLiquidates :
      (params : Option (RuleParams D)) → NeverLiquidates (overnight_holding_rule outside params)
  unfolding NeverLiquidates overnight_holding_rule OvernightHolding.evaluate
  overnight_holding_rule-NeverLiquidates params fresh ctx e = ground (arith, e)

  pub weekend_holding_rule-NeverLiquidates :
      (params : Option (RuleParams D)) → NeverLiquidates (weekend_holding_rule outside params)
  unfolding NeverLiquidates weekend_holding_rule WeekendHolding.evaluate
  weekend_holding_rule-NeverLiquidates params fresh ctx e = ground (arith, e)

  pub max_position_size_rule-NeverLiquidates :
      (params : Option (RuleParams D)) → NeverLiquidates (max_position_size_rule outside params)
  unfolding NeverLiquidates max_position_size_rule MaxPositionSize.evaluate
  max_position_size_rule-NeverLiquidates params fresh ctx e = ground (arith, e)

  pub max_open_positions_rule-NeverLiquidates :
      (params : Option (RuleParams D)) → NeverLiquidates (max_open_positions_rule outside params)
  unfolding NeverLiquidates max_open_positions_rule MaxOpenPositions.evaluate
  max_open_positions_rule-NeverLiquidates params fresh ctx e = ground (arith, e)

  pub max_daily_trades_rule-NeverLiquidates :
      (params : Option (RuleParams D)) → NeverLiquidates (max_daily_trades_rule outside params)
  unfolding NeverLiquidates max_daily_trades_rule MaxDailyTrades.evaluate
  max_daily_trades_rule-NeverLiquidates params fresh ctx e = ground (arith, e)

  pub time_limit_rule-NeverLiquidates :
      (params : Option (RuleParams D)) → NeverLiquidates (time_limit_rule outside params)
  unfolding NeverLiquidates time_limit_rule TimeLimit.evaluate
  time_limit_rule-NeverLiquidates params fresh ctx e = ground (arith, e)

  pub cooldown_rule-NeverLiquidates :
      (params : Option (RuleParams D)) → NeverLiquidates (cooldown_rule outside params)
  unfolding NeverLiquidates cooldown_rule Cooldown.evaluate
  cooldown_rule-NeverLiquidates params fresh ctx e = ground (arith, e)

  pub hedging_rule-NeverLiquidates :
      (params : Option (RuleParams D)) → NeverLiquidates (hedging_rule outside params)
  unfolding NeverLiquidates hedging_rule Hedging.evaluate
  hedging_rule-NeverLiquidates params fresh ctx e = ground (arith, e)

  pub grid_trading_rule-NeverLiquidates :
      (params : Option (RuleParams D)) → NeverLiquidates (grid_trading_rule outside params)
  unfolding NeverLiquidates grid_trading_rule GridTrading.evaluate
  grid_trading_rule-NeverLiquidates params fresh ctx e = ground (arith, e)

  pub copy_trading_rule-NeverLiquidates :
      (params : Option (RuleParams D)) → NeverLiquidates (copy_trading_rule outside params)
  unfolding NeverLiquidates copy_trading_rule CopyTrading.evaluate
  copy_trading_rule-NeverLiquidates params fresh ctx e = ground (arith, e)

  pub stop_loss_required_rule-NeverLiquidates :
      (params : Option (RuleParams D)) → NeverLiquidates (stop_loss_required_rule outside params)
  unfolding NeverLiquidates stop_loss_required_rule StopLossRequired.evaluate
  stop_loss_required_rule-NeverLiquidates params fresh ctx e = ground (arith, e)

  pub take_profit_required_rule-NeverLiquidates :
      (params : Option (RuleParams D)) → NeverLiquidates (take_profit_required_rule outside params)
  unfolding NeverLiquidates take_profit_required_rule TakeProfitRequired.evaluate
  take_profit_required_rule-NeverLiquidates params fresh ctx e = ground (arith, e)

  pub hft_scalping_rule-NeverLiquidates :
      (params : Option (RuleParams D)) → NeverLiquidates (hft_scalping_rule outside params)
  unfolding NeverLiquidates hft_scalping_rule HftScalping.evaluate
  hft_scalping_rule-NeverLiquidates params fresh ctx e = ground (arith, e)

  pub per_trade_max_loss_rule-NeverLiquidates :
      (params : Option (RuleParams D)) → NeverLiquidates (per_trade_max_loss_rule outside params)
  unfolding NeverLiquidates per_trade_max_loss_rule PerTradeMaxLoss.evaluate
  per_trade_max_loss_rule-NeverLiquidates params fresh ctx e = ground (arith, e)

  pub inactivity_rule-NeverLiquidates :
      (params : Option (RuleParams D)) → NeverLiquidates (inactivity_rule outside params)
  unfolding NeverLiquidates inactivity_rule Inactivity.evaluate
  inactivity_rule-NeverLiquidates params fresh ctx e = ground (arith, e)

  pub max_total_lots_rule-NeverLiquidates :
      (params : Option (RuleParams D)) → NeverLiquidates (max_total_lots_rule outside params)
  unfolding NeverLiquidates max_total_lots_rule MaxTotalLots.evaluate
  max_total_lots_rule-NeverLiquidates params fresh ctx e = ground (arith, e)

  pub trading_hours_rule-NeverLiquidates : NeverLiquidates (trading_hours_rule outside)
  unfolding NeverLiquidates trading_hours_rule TradingHours.evaluate
  trading_hours_rule-NeverLiquidates fresh ctx e = ground (arith, e)

  pub margin_rule-NeverLiquidates : NeverLiquidates (margin_rule outside)
  unfolding NeverLiquidates margin_rule Margin.evaluate
  margin_rule-NeverLiquidates fresh ctx e = ground (arith, e)

  pub cross_account_hedging_rule-NeverLiquidates :
      (params : Option (RuleParams D)) → NeverLiquidates (cross_account_hedging_rule outside params)
  unfolding NeverLiquidates cross_account_hedging_rule CrossAccountHedging.evaluate
  cross_account_hedging_rule-NeverLiquidates params fresh ctx e = ground (arith, e)

  pub lowcap_exposure_rule-NeverLiquidates :
      (params : Option (RuleParams D)) → NeverLiquidates (lowcap_exposure_rule outside params)
  unfolding NeverLiquidates lowcap_exposure_rule LowcapExposure.evaluate
  lowcap_exposure_rule-NeverLiquidates params fresh ctx e = ground (arith, e)
