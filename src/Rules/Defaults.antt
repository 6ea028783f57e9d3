-- ===== src/Rules/Defaults.antt =====
-- rules/registry.rs: the default rules, the registries that a plan and a pack give.
pub mod Names
pub mod Distinct
pub mod Plans
pub mod Admission
pub mod Estimates
pub mod Registered
pub mod NeverLiquidates
pub mod Examples
mod Orders
use propfirm_engine.Base.{
  String, Bool, true, false, not, ◌&&◌, ◌||◌, List, [], ◌∷◌, Option, none, some, is_some,
  if◌then◌else◌, ◌==◌, same_string, keep, Result, ok, invalid_config, ok_or, ◌>>=◌,
}
use propfirm_engine.Decimal.{Decimal}
use propfirm_engine.Core.Ids.{Uuid}
use propfirm_engine.Core.Calendar.{Calendar}
use propfirm_engine.Core.Plan.{ChallengePlan}
use propfirm_engine.Rules.Params.{RuleParams}
use propfirm_engine.Rules.Pack.{RuleEntry, RulePack, from_entry}
use propfirm_engine.Rules.Registry.{Rule, RuleRegistry, empty, register}
use propfirm_engine.Rules.Registry.Estimates.{max_drawdown_rule, daily_drawdown_rule}
use propfirm_engine.Rules.Library.{
  Outside, trailing_drawdown_rule, profit_target_rule, min_trading_days_rule,
  min_profitable_days_rule, consistency_rule, news_trading_rule, overnight_holding_rule,
  weekend_holding_rule, max_position_size_rule, max_open_positions_rule, max_daily_trades_rule,
  time_limit_rule, cooldown_rule, hedging_rule, grid_trading_rule, copy_trading_rule,
  stop_loss_required_rule, take_profit_required_rule, hft_scalping_rule, per_trade_max_loss_rule,
  inactivity_rule, max_total_lots_rule, trading_hours_rule, margin_rule, cross_account_hedging_rule,
  lowcap_exposure_rule,
}

-- Whether the plan leaves a rule out, by the texts of the ids and what the plan says of them.
unfoldable pub dropped_by : (String → Uuid) → Uuid → List (String × Bool) → Bool
dropped_by named id [] = false
dropped_by named id ((text, off) ∷ rest) = (id == named text && off) || dropped_by named id rest

module _ {D : Type 0} where
  -- `for rule in rules { r.register(rule) }`
  unfoldable pub register_all : RuleRegistry D → List (Rule D) → RuleRegistry D
  unfolding register
  register_all reg [] = reg
  register_all reg (rule ∷ rules) = register_all (register reg rule) rules

  abbrev pub opt_ins : ChallengePlan D → List (String × Bool)
  opt_ins plan =
      ("hft_scalping", not plan.hft_ban_enabled)
      ∷ (
        "per_trade_max_loss",
        not (is_some plan.per_trade_max_loss_pct) && not (is_some plan.per_trade_max_loss_money),
      )
      ∷ ("inactivity", not (is_some plan.inactivity_days))
      ∷ ("min_profitable_days", not (is_some plan.min_profitable_days))
      ∷ ("cross_account_hedging", not plan.cross_account_hedging_prohibited)
      ∷ ("lowcap_exposure", not (is_some plan.lowcap_exposure_limit_pct))
      ∷ ("hedging", plan.hedging_allowed)
      ∷ ("grid_trading", plan.grid_trading_allowed)
      ∷ ("copy_trading", plan.copy_trading_allowed)
      ∷ ("news_trading", plan.news_trading_allowed)
      ∷ ("cooldown", plan.cooldown_seconds == 0)
      ∷ []

unfoldable pub factory_in : {A : Type 0} → String → List (String × A) → Option A
factory_in kind [] = none
factory_in kind ((k, factory) ∷ rest) =
    let later = factory_in kind rest in if same_string kind k then some factory else later

module _ {D : Type 0} ⦃d : Decimal D⦄ ⦃c : Calendar⦄ (outside : Outside D) where
  unfoldable pub default_rules : List (Rule D)
  default_rules =
      daily_drawdown_rule none (outside.named "daily_drawdown")
      ∷ max_drawdown_rule none (outside.named "max_drawdown")
      ∷ trailing_drawdown_rule outside none
      ∷ profit_target_rule outside none
      ∷ min_trading_days_rule outside none
      ∷ min_profitable_days_rule outside none
      ∷ consistency_rule outside none
      ∷ news_trading_rule outside none
      ∷ overnight_holding_rule outside none
      ∷ weekend_holding_rule outside none
      ∷ max_position_size_rule outside none
      ∷ max_open_positions_rule outside none
      ∷ max_daily_trades_rule outside none
      ∷ time_limit_rule outside none
      ∷ cooldown_rule outside none
      ∷ hedging_rule outside none
      ∷ grid_trading_rule outside none
      ∷ copy_trading_rule outside none
      ∷ stop_loss_required_rule outside none
      ∷ take_profit_required_rule outside none
      ∷ hft_scalping_rule outside none
      ∷ per_trade_max_loss_rule outside none
      ∷ inactivity_rule outside none
      ∷ max_total_lots_rule outside none
      ∷ trading_hours_rule outside
      ∷ margin_rule outside
      ∷ cross_account_hedging_rule outside none
      ∷ lowcap_exposure_rule outside none
      ∷ []

  unfoldable pub with_default_rules : RuleRegistry D
  unfolding register_all default_rules
  with_default_rules = register_all empty default_rules

  unfoldable pub is_dropped : ChallengePlan D → Rule D → Bool
  unfolding dropped_by
  is_dropped plan rule = dropped_by outside.named rule.id (opt_ins plan)

  unfoldable pub with_default_rules_for_plan : ChallengePlan D → RuleRegistry D
  unfolding register_all default_rules is_dropped
  with_default_rules_for_plan plan =
      register_all empty (keep (λ rule. not (is_dropped plan rule)) default_rules)

  abbrev pub factories : List (String × (Option (RuleParams D) → Rule D))
  factories =
      ("daily_drawdown", λ p. daily_drawdown_rule p (outside.named "daily_drawdown"))
      ∷ ("max_drawdown", λ p. max_drawdown_rule p (outside.named "max_drawdown"))
      ∷ ("trailing_drawdown", λ p. trailing_drawdown_rule outside p)
      ∷ ("profit_target", λ p. profit_target_rule outside p)
      ∷ ("min_trading_days", λ p. min_trading_days_rule outside p)
      ∷ ("consistency", λ p. consistency_rule outside p)
      ∷ ("news_trading", λ p. news_trading_rule outside p)
      ∷ ("overnight_holding", λ p. overnight_holding_rule outside p)
      ∷ ("weekend_holding", λ p. weekend_holding_rule outside p)
      ∷ ("max_position_size", λ p. max_position_size_rule outside p)
      ∷ ("max_open_positions", λ p. max_open_positions_rule outside p)
      ∷ ("max_daily_trades", λ p. max_daily_trades_rule outside p)
      ∷ ("time_limit", λ p. time_limit_rule outside p)
      ∷ ("cooldown", λ p. cooldown_rule outside p)
      ∷ ("hedging", λ p. hedging_rule outside p)
      ∷ ("grid_trading", λ p. grid_trading_rule outside p)
      ∷ ("copy_trading", λ p. copy_trading_rule outside p)
      ∷ ("sl_required", λ p. stop_loss_required_rule outside p)
      ∷ ("tp_required", λ p. take_profit_required_rule outside p)
      ∷ ("hft_scalping", λ p. hft_scalping_rule outside p)
      ∷ ("per_trade_max_loss", λ p. per_trade_max_loss_rule outside p)
      ∷ ("inactivity", λ p. inactivity_rule outside p)
      ∷ ("max_total_lots", λ p. max_total_lots_rule outside p)
      ∷ ("trading_hours", λ p. trading_hours_rule outside)
      ∷ ("margin", λ p. margin_rule outside)
      ∷ []

  -- The rule that a kind and the parameters give.
  unfoldable pub default_factory_for_kind : String → Option (Option (RuleParams D) → Rule D)
  unfolding factory_in
  default_factory_for_kind kind = factory_in kind factories

  -- An entry that is not enabled is skipped.
  unfoldable pub add_entry : RuleRegistry D → RuleEntry D → Result (RuleRegistry D)
  unfolding default_factory_for_kind from_entry register
  add_entry reg e =
      if not e.enabled
      then ok reg
      else ok_or (default_factory_for_kind e.kind) invalid_config >>= λ factory.
          ok (register reg (factory (some (from_entry e))))

  unfoldable pub build_rules : List (RuleEntry D) → RuleRegistry D → Result (RuleRegistry D)
  unfolding add_entry
  build_rules [] reg = ok reg
  build_rules (e ∷ es) reg = add_entry reg e >>= build_rules es

  unfoldable pub build_from_pack : RulePack D → Result (RuleRegistry D)
  unfolding build_rules
  build_from_pack pack = build_rules pack.rules empty
