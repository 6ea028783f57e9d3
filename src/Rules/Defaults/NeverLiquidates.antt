-- ===== src/Rules/Defaults/NeverLiquidates.antt =====
-- Whole registries on an equity that is only estimated.
use propfirm_engine.Base.{
  String, false, not, List, [], ◌∷◌, Option, none, some, ◌≡◌, refl, subst, arith, any, keep, All,
  Bool-cases, Option-cases, inl, inr, ok, bind-ok,
}
use propfirm_engine.Decimal.{Decimal}
use propfirm_engine.Core.Ids.{Uuid}
use propfirm_engine.Core.Calendar.{Calendar}
use propfirm_engine.Core.Plan.{ChallengePlan}
use propfirm_engine.Rules.Params.{RuleParams}
use propfirm_engine.Rules.Pack.{RuleEntry, RulePack, from_entry}
use propfirm_engine.Rules.Verdict.{RuleReport}
use propfirm_engine.Rules.Context.{RuleContext, require_broker_equity}
use propfirm_engine.Rules.Registry.{Rule, RuleRegistry, empty, register, evaluate, run_rules}
use propfirm_engine.Rules.Library.{Outside}
use propfirm_engine.Rules.Defaults.{
  default_rules, with_default_rules_for_plan, is_dropped, build_from_pack, build_rules,
  default_factory_for_kind, factories, add_entry,
}
use propfirm_engine.Rules.Defaults.Estimates.{
  liquidates, NeverLiquidates, daily_drawdown_rule-NeverLiquidates,
  max_drawdown_rule-NeverLiquidates, trailing_drawdown_rule-NeverLiquidates,
  profit_target_rule-NeverLiquidates, min_trading_days_rule-NeverLiquidates,
  min_profitable_days_rule-NeverLiquidates, consistency_rule-NeverLiquidates,
  news_trading_rule-NeverLiquidates, overnight_holding_rule-NeverLiquidates,
  weekend_holding_rule-NeverLiquidates, max_position_size_rule-NeverLiquidates,
  max_open_positions_rule-NeverLiquidates, max_daily_trades_rule-NeverLiquidates,
  time_limit_rule-NeverLiquidates, cooldown_rule-NeverLiquidates, hedging_rule-NeverLiquidates,
  grid_trading_rule-NeverLiquidates, copy_trading_rule-NeverLiquidates,
  stop_loss_required_rule-NeverLiquidates, take_profit_required_rule-NeverLiquidates,
  hft_scalping_rule-NeverLiquidates, per_trade_max_loss_rule-NeverLiquidates,
  inactivity_rule-NeverLiquidates, max_total_lots_rule-NeverLiquidates,
  trading_hours_rule-NeverLiquidates, margin_rule-NeverLiquidates,
  cross_account_hedging_rule-NeverLiquidates, lowcap_exposure_rule-NeverLiquidates,
}
use propfirm_engine.Rules.Defaults.Registered.{
  liquidates-run_rules, All-keep, All-register, All-register_all, All-factory_in,
}

module _ {D : Type 0} ⦃d : Decimal D⦄ ⦃c : Calendar⦄ (outside : Outside D) where
  default_rules_never : All NeverLiquidates (default_rules outside)
  unfolding default_rules
  default_rules_never = (
    daily_drawdown_rule-NeverLiquidates outside none,
    (
      max_drawdown_rule-NeverLiquidates outside none,
      (
        trailing_drawdown_rule-NeverLiquidates outside none,
        (
          profit_target_rule-NeverLiquidates outside none,
          (
            min_trading_days_rule-NeverLiquidates outside none,
            (
              min_profitable_days_rule-NeverLiquidates outside none,
              (
                consistency_rule-NeverLiquidates outside none,
                (
                  news_trading_rule-NeverLiquidates outside none,
                  (
                    overnight_holding_rule-NeverLiquidates outside none,
                    (
                      weekend_holding_rule-NeverLiquidates outside none,
                      (
                        max_position_size_rule-NeverLiquidates outside none,
                        (
                          max_open_positions_rule-NeverLiquidates outside none,
                          (
                            max_daily_trades_rule-NeverLiquidates outside none,
                            (
                              time_limit_rule-NeverLiquidates outside none,
                              (
                                cooldown_rule-NeverLiquidates outside none,
                                (
                                  hedging_rule-NeverLiquidates outside none,
                                  (
                                    grid_trading_rule-NeverLiquidates outside none,
                                    (
                                      copy_trading_rule-NeverLiquidates outside none,
                                      (
                                        stop_loss_required_rule-NeverLiquidates outside none,
                                        (
                                          take_profit_required_rule-NeverLiquidates outside none,
                                          (
                                            hft_scalping_rule-NeverLiquidates outside none,
                                            (
                                              per_trade_max_loss_rule-NeverLiquidates outside none,
                                              (
                                                inactivity_rule-NeverLiquidates outside none,
                                                (
                                                  max_total_lots_rule-NeverLiquidates outside none,
                                                  (
                                                    trading_hours_rule-NeverLiquidates outside,
                                                    (
                                                      margin_rule-NeverLiquidates outside,
                                                      (
                                                        cross_account_hedging_rule-NeverLiquidates
                                                            outside none,
                                                        (
                                                          lowcap_exposure_rule-NeverLiquidates
                                                            outside none,
                                                          tt,
                                                        ),
                                                      ),
                                                    ),
                                                  ),
                                                ),
                                              ),
                                            ),
                                          ),
                                        ),
                                      ),
                                    ),
                                  ),
                                ),
                              ),
                            ),
                          ),
                        ),
                      ),
                    ),
                  ),
                ),
              ),
            ),
          ),
        ),
      ),
    ),
  )

  factory_never :
      (kind : String) (factory : Option (RuleParams D) → Rule D)
      → default_factory_for_kind outside kind ≡ some factory
      → (p : Option (RuleParams D)) → NeverLiquidates (factory p)
  unfolding default_factory_for_kind
  factory_never kind factory e p =
      All-factory_in NeverLiquidates kind (factories outside) factory
        (
          λ q. daily_drawdown_rule-NeverLiquidates outside q,
          (
            λ q. max_drawdown_rule-NeverLiquidates outside q,
            (
              λ q. trailing_drawdown_rule-NeverLiquidates outside q,
              (
                λ q. profit_target_rule-NeverLiquidates outside q,
                (
                  λ q. min_trading_days_rule-NeverLiquidates outside q,
                  (
                    λ q. consistency_rule-NeverLiquidates outside q,
                    (
                      λ q. news_trading_rule-NeverLiquidates outside q,
                      (
                        λ q. overnight_holding_rule-NeverLiquidates outside q,
                        (
                          λ q. weekend_holding_rule-NeverLiquidates outside q,
                          (
                            λ q. max_position_size_rule-NeverLiquidates outside q,
                            (
                              λ q. max_open_positions_rule-NeverLiquidates outside q,
                              (
                                λ q. max_daily_trades_rule-NeverLiquidates outside q,
                                (
                                  λ q. time_limit_rule-NeverLiquidates outside q,
                                  (
                                    λ q. cooldown_rule-NeverLiquidates outside q,
                                    (
                                      λ q. hedging_rule-NeverLiquidates outside q,
                                      (
                                        λ q. grid_trading_rule-NeverLiquidates outside q,
                                        (
                                          λ q. copy_trading_rule-NeverLiquidates outside q,
                                          (
                                            λ q. stop_loss_required_rule-NeverLiquidates outside q,
                                            (
                                              λ q.
                                                  take_profit_required_rule-NeverLiquidates outside
                                                    q,
                                              (
                                                λ q. hft_scalping_rule-NeverLiquidates outside q,
                                                (
                                                  λ q.
                                                      per_trade_max_loss_rule-NeverLiquidates
                                                        outside q,
                                                  (
                                                    λ q. inactivity_rule-NeverLiquidates outside q,
                                                    (
                                                      λ q.
                                                          max_total_lots_rule-NeverLiquidates
                                                            outside q,
                                                      (
                                                        λ q.
                                                            trading_hours_rule-NeverLiquidates
                                                            outside,
                                                        (
                                                          λ q. margin_rule-NeverLiquidates outside,
                                                          tt,
                                                        ),
                                                      ),
                                                    ),
                                                  ),
                                                ),
                                              ),
                                            ),
                                          ),
                                        ),
                                      ),
                                    ),
                                  ),
                                ),
                              ),
                            ),
                          ),
                        ),
                      ),
                    ),
                  ),
                ),
              ),
            ),
          ),
        )
        e p

  add_entry_never :
      (reg built : RuleRegistry D) (x : RuleEntry D)
      → All NeverLiquidates reg.rules
      → add_entry outside reg x ≡ ok built
      → All NeverLiquidates built.rules
  unfolding add_entry
  add_entry_never reg built x h e = elim (Bool-cases x.enabled) [
    | inr off ↦
        (let same : reg ≡ built = ground (arith, e, off) in
          subst (λ r. All NeverLiquidates r.rules) same h)
    | inl on ↦ elim (Option-cases (default_factory_for_kind outside x.kind)) [
      | inl missing ↦ absurd (ground (arith, e, on, missing))
      | inr (factory, found) ↦
          (let same : register reg (factory (some (from_entry x))) ≡ built =
              ground (arith, e, on, found) in
            subst (λ r. All NeverLiquidates r.rules) same
              (All-register NeverLiquidates reg (factory (some (from_entry x))) h
                (factory_never x.kind factory found (some (from_entry x)))))
    ]
  ]

  build_rules_never :
      (es : List (RuleEntry D)) (reg built : RuleRegistry D)
      → All NeverLiquidates reg.rules
      → build_rules outside es reg ≡ ok built
      → All NeverLiquidates built.rules
  unfolding build_rules
  build_rules_never [] reg built h e =
      let same : reg ≡ built = ground (arith, e) in subst (λ r. All NeverLiquidates r.rules) same h
  build_rules_never (x ∷ es) reg built h e =
      let (next, added, rest) =
        bind-ok (add_entry outside reg x) (build_rules outside es) built e in
      build_rules_never es next built (add_entry_never reg next x h added) rest

  reports_never :
      (fresh : Uuid → Uuid) (reg : RuleRegistry D) (ctx : RuleContext D)
      → All NeverLiquidates reg.rules
      → require_broker_equity ctx ≡ none
      → (reports : List (RuleReport D)) × (evaluate fresh reg ctx ≡ ok reports)
        × (any (λ r. liquidates r.verdict) reports ≡ false)
  unfolding evaluate
  reports_never fresh reg ctx h e =
      (run_rules fresh ctx reg.rules, refl, liquidates-run_rules fresh ctx reg.rules h e)

  -- On an equity that is only estimated, the default rules of any plan never liquidate the account:
  -- the evaluation succeeds, and no report of it is a liquidation or an emergency.
  pub plan_never_liquidates :
      (fresh : Uuid → Uuid) (plan : ChallengePlan D) (ctx : RuleContext D)
      → require_broker_equity ctx ≡ none
      → (reports : List (RuleReport D)) × (evaluate fresh
            (with_default_rules_for_plan outside plan)
            ctx
          ≡ ok reports)
        × (any (λ r. liquidates r.verdict) reports ≡ false)
  unfolding with_default_rules_for_plan empty
  plan_never_liquidates fresh plan ctx e =
      reports_never fresh (with_default_rules_for_plan outside plan) ctx
        (All-register_all NeverLiquidates empty
          (keep (λ rule. not (is_dropped outside plan rule)) (default_rules outside)) tt
          (All-keep NeverLiquidates (λ rule. not (is_dropped outside plan rule))
            (default_rules outside) default_rules_never))
        e

  -- On an equity that is only estimated, the rules of any pack that is accepted never liquidate the
  -- account, whatever their parameters and failure policies: the evaluation succeeds, and no report
  -- of it is a liquidation or an emergency.
  pub pack_never_liquidates :
      (fresh : Uuid → Uuid) (pack : RulePack D) (reg : RuleRegistry D) (ctx : RuleContext D)
      → build_from_pack outside pack ≡ ok reg
      → require_broker_equity ctx ≡ none
      → (reports : List (RuleReport D)) × (evaluate fresh reg ctx ≡ ok reports)
        × (any (λ r. liquidates r.verdict) reports ≡ false)
  unfolding build_from_pack empty
  pack_never_liquidates fresh pack reg ctx built e =
      reports_never fresh reg ctx (build_rules_never pack.rules empty reg tt built) e
