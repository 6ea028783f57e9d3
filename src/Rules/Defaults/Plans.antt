-- ===== src/Rules/Defaults/Plans.antt =====
-- The registry of a plan leaves out only rules that the plan turns off.
use propfirm_engine.Base.{
  String, true, false, not, none, ◌≡◌, refl, sym, ◌∙◌, arith, any, All, same_string,
}
use propfirm_engine.Decimal.{Decimal}
use propfirm_engine.Core.Ids.{Uuid}
use propfirm_engine.Core.Calendar.{Calendar}
use propfirm_engine.Core.Plan.{ChallengePlan}
use propfirm_engine.Rules.Context.{RuleContext}
use propfirm_engine.Rules.Registry.{Rule, evaluate}
use propfirm_engine.Rules.Registry.Index.{AreDistinct}
use propfirm_engine.Rules.Registry.Estimates.{max_drawdown_rule, daily_drawdown_rule}
use propfirm_engine.Rules.Library.{
  Outside, trailing_drawdown_rule, profit_target_rule, min_trading_days_rule,
  min_profitable_days_rule, consistency_rule, news_trading_rule, overnight_holding_rule,
  weekend_holding_rule, max_position_size_rule, max_open_positions_rule, max_daily_trades_rule,
  time_limit_rule, cooldown_rule, hedging_rule, grid_trading_rule, copy_trading_rule,
  stop_loss_required_rule, take_profit_required_rule, hft_scalping_rule, per_trade_max_loss_rule,
  inactivity_rule, max_total_lots_rule, trading_hours_rule, margin_rule, cross_account_hedging_rule,
  lowcap_exposure_rule,
}
use propfirm_engine.Rules.Evaluators.HftScalping
use propfirm_engine.Rules.Evaluators.PerTradeMaxLoss
use propfirm_engine.Rules.Evaluators.Inactivity
use propfirm_engine.Rules.Evaluators.MinProfitableDays
use propfirm_engine.Rules.Evaluators.CrossAccountHedging
use propfirm_engine.Rules.Evaluators.LowcapExposure
use propfirm_engine.Rules.Evaluators.Hedging
use propfirm_engine.Rules.Evaluators.GridTrading
use propfirm_engine.Rules.Evaluators.CopyTrading
use propfirm_engine.Rules.Evaluators.NewsTrading
use propfirm_engine.Rules.Evaluators.Cooldown
use propfirm_engine.Rules.Defaults.{
  default_rules, with_default_rules, with_default_rules_for_plan, is_dropped, opt_ins,
}
use propfirm_engine.Rules.Defaults.Names.{rule_names, keeps_apart, dropped_by_name, dropped_text}
use propfirm_engine.Rules.Defaults.Distinct.{AreDistinct-named, evaluate-keep, of_not}

module _ {D : Type 0} ⦃d : Decimal D⦄ ⦃c : Calendar⦄ (outside : Outside D)
    (apart : keeps_apart outside.named rule_names ≡ true) where
  pub AreDistinct-default_rules : AreDistinct (default_rules outside)
  unfolding default_rules daily_drawdown_rule max_drawdown_rule trailing_drawdown_rule
      profit_target_rule min_trading_days_rule min_profitable_days_rule consistency_rule
      news_trading_rule overnight_holding_rule weekend_holding_rule max_position_size_rule
      max_open_positions_rule max_daily_trades_rule time_limit_rule cooldown_rule hedging_rule
      grid_trading_rule copy_trading_rule stop_loss_required_rule take_profit_required_rule
      hft_scalping_rule per_trade_max_loss_rule inactivity_rule max_total_lots_rule
      trading_hours_rule margin_rule cross_account_hedging_rule lowcap_exposure_rule
  AreDistinct-default_rules =
      AreDistinct-named outside.named (default_rules outside) rule_names refl apart

  known :
      (plan : ChallengePlan D) → All (λ e. any (same_string e.0) rule_names ≡ true) (opt_ins plan)
  known plan =
      (refl, (refl, (refl, (refl, (refl, (refl, (refl, (refl, (refl, (refl, (refl, tt)))))))))))

  -- Whether a plan leaves a rule out, by its name.
  pub is_dropped_name :
      (plan : ChallengePlan D) (rule : Rule D) (s : String)
      → rule.id ≡ outside.named s
      → any (same_string s) rule_names ≡ true
      → is_dropped outside plan rule ≡ dropped_text s (opt_ins plan)
  unfolding is_dropped
  is_dropped_name plan rule s e k =
      rw e (dropped_by_name outside.named s (opt_ins plan) rule_names apart k (known plan))

  abbrev StaysOff : ChallengePlan D → RuleContext D → Rule D → Type 0
  StaysOff plan ctx r = not (is_dropped outside plan r) ≡ false → r.is_enabled ctx ≡ false

  -- A rule that no plan leaves out.
  never_dropped :
      (plan : ChallengePlan D) (ctx : RuleContext D) (rule : Rule D) (s : String)
      → rule.id ≡ outside.named s
      → any (same_string s) rule_names ≡ true
      → dropped_text s (opt_ins plan) ≡ false
      → StaysOff plan ctx rule
  never_dropped plan ctx rule s e k kept h =
      let on = sym (is_dropped_name plan rule s e k) ∙ of_not (is_dropped outside plan rule) h in
      absurd (ground (arith, sym kept ∙ on))

  -- A rule that the plan leaves out only where it is disabled.
  dropped_off :
      (plan : ChallengePlan D) (ctx : RuleContext D) (rule : Rule D) (s : String)
      → rule.id ≡ outside.named s
      → any (same_string s) rule_names ≡ true
      → (dropped_text s (opt_ins plan) ≡ true → rule.is_enabled ctx ≡ false)
      → StaysOff plan ctx rule
  dropped_off plan ctx rule s e k off h =
      off (sym (is_dropped_name plan rule s e k) ∙ of_not (is_dropped outside plan rule) h)

  default_rules_off :
      (plan : ChallengePlan D) (ctx : RuleContext D)
      → ctx.account.plan ≡ plan
      → All (StaysOff plan ctx) (default_rules outside)
  unfolding default_rules daily_drawdown_rule max_drawdown_rule trailing_drawdown_rule
      profit_target_rule min_trading_days_rule min_profitable_days_rule consistency_rule
      news_trading_rule overnight_holding_rule weekend_holding_rule max_position_size_rule
      max_open_positions_rule max_daily_trades_rule time_limit_rule cooldown_rule hedging_rule
      grid_trading_rule copy_trading_rule stop_loss_required_rule take_profit_required_rule
      hft_scalping_rule per_trade_max_loss_rule inactivity_rule max_total_lots_rule
      trading_hours_rule margin_rule cross_account_hedging_rule lowcap_exposure_rule
      HftScalping.is_enabled PerTradeMaxLoss.is_enabled Inactivity.is_enabled
      MinProfitableDays.is_enabled CrossAccountHedging.is_enabled LowcapExposure.is_enabled
      Hedging.is_enabled GridTrading.is_enabled CopyTrading.is_enabled NewsTrading.is_enabled
      Cooldown.is_enabled
  default_rules_off plan ctx same = (
    never_dropped plan ctx (daily_drawdown_rule none (outside.named "daily_drawdown"))
        "daily_drawdown" refl refl refl,
    (
      never_dropped plan ctx (max_drawdown_rule none (outside.named "max_drawdown")) "max_drawdown"
          refl refl refl,
      (
        never_dropped plan ctx (trailing_drawdown_rule outside none) "trailing_drawdown" refl refl
            refl,
        (
          never_dropped plan ctx (profit_target_rule outside none) "profit_target" refl refl refl,
          (
            never_dropped plan ctx (min_trading_days_rule outside none) "min_trading_days" refl refl
                refl,
            (
              dropped_off plan ctx (min_profitable_days_rule outside none) "min_profitable_days"
                  refl refl (λ off. ground (arith, off, same)),
              (
                never_dropped plan ctx (consistency_rule outside none) "consistency" refl refl refl,
                (
                  dropped_off plan ctx (news_trading_rule outside none) "news_trading" refl refl
                      (λ off. ground (arith, off, same)),
                  (
                    never_dropped plan ctx (overnight_holding_rule outside none) "overnight_holding"
                        refl refl refl,
                    (
                      never_dropped plan ctx (weekend_holding_rule outside none) "weekend_holding"
                          refl refl refl,
                      (
                        never_dropped plan ctx (max_position_size_rule outside none)
                            "max_position_size" refl refl refl,
                        (
                          never_dropped plan ctx (max_open_positions_rule outside none)
                              "max_open_positions" refl refl refl,
                          (
                            never_dropped plan ctx (max_daily_trades_rule outside none)
                                "max_daily_trades" refl refl refl,
                            (
                              never_dropped plan ctx (time_limit_rule outside none) "time_limit"
                                  refl refl refl,
                              (
                                dropped_off plan ctx (cooldown_rule outside none) "cooldown" refl
                                    refl (λ off. ground (arith, off, same)),
                                (
                                  dropped_off plan ctx (hedging_rule outside none) "hedging" refl
                                      refl (λ off. ground (arith, off, same)),
                                  (
                                    dropped_off plan ctx (grid_trading_rule outside none)
                                        "grid_trading" refl refl (λ off. ground (arith, off, same)),
                                    (
                                      dropped_off plan ctx (copy_trading_rule outside none)
                                          "copy_trading" refl refl
                                          (λ off. ground (arith, off, same)),
                                      (
                                        never_dropped plan ctx
                                            (stop_loss_required_rule outside none) "sl_required"
                                            refl refl refl,
                                        (
                                          never_dropped plan ctx
                                              (take_profit_required_rule outside none) "tp_required"
                                              refl refl refl,
                                          (
                                            dropped_off plan ctx (hft_scalping_rule outside none)
                                                "hft_scalping" refl refl
                                                (λ off. ground (arith, off, same)),
                                            (
                                              dropped_off plan ctx
                                                  (per_trade_max_loss_rule outside none)
                                                  "per_trade_max_loss" refl refl
                                                  (λ off. ground (arith, off, same)),
                                              (
                                                dropped_off plan ctx (inactivity_rule outside none)
                                                    "inactivity" refl refl
                                                    (λ off. ground (arith, off, same)),
                                                (
                                                  never_dropped plan ctx
                                                      (max_total_lots_rule outside none)
                                                      "max_total_lots" refl refl refl,
                                                  (
                                                    never_dropped plan ctx
                                                        (trading_hours_rule outside) "trading_hours"
                                                        refl refl refl,
                                                    (
                                                      never_dropped plan ctx (margin_rule outside)
                                                          "margin" refl refl refl,
                                                      (
                                                        dropped_off plan ctx
                                                            (cross_account_hedging_rule outside
                                                            none)
                                                            "cross_account_hedging" refl refl
                                                            (λ off. ground (arith, off, same)),
                                                        (
                                                          dropped_off plan ctx
                                                            (lowcap_exposure_rule outside none)
                                                            "lowcap_exposure" refl refl
                                                            (λ off. ground (arith, off, same)),
                                                          tt,
                                                        ),
                                                      ),
                                                    ),
                                                  ),
                                                ),
                                              ),
                                            ),
                                          ),
                                        ),
                                      ),
                                    ),
                                  ),
                                ),
                              ),
                            ),
                          ),
                        ),
                      ),
                    ),
                  ),
                ),
              ),
            ),
          ),
        ),
      ),
    ),
  )

  -- The registry that a plan gives reports exactly what the registry of all default rules reports,
  -- on every context of an account with this plan: the rules that it leaves out are disabled there.
  -- The ids of the default rules are different.
  pub evaluate-with_default_rules_for_plan :
      (fresh : Uuid → Uuid) (plan : ChallengePlan D) (ctx : RuleContext D)
      → ctx.account.plan ≡ plan
      → evaluate fresh (with_default_rules_for_plan outside plan) ctx
        ≡ evaluate fresh (with_default_rules outside) ctx
  unfolding with_default_rules_for_plan with_default_rules
  evaluate-with_default_rules_for_plan fresh plan ctx same =
      evaluate-keep fresh ctx (λ rule. not (is_dropped outside plan rule)) (default_rules outside)
        AreDistinct-default_rules (default_rules_off plan ctx same)
