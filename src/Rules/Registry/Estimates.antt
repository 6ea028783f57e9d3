-- ===== src/Rules/Registry/Estimates.antt =====
-- The drawdown rules as the registry sees them, and registries that never terminate an account on
-- an estimated equity.
use propfirm_engine.Base.{
  ◌≡◌, refl, false, List, [], ◌∷◌, Option, none, unwrap_or, arith, ok, All, any, Result-cases, inl,
  inr,
}
use propfirm_engine.Decimal.{Decimal}
use propfirm_engine.Core.Ids.{Uuid}
use propfirm_engine.Core.Violation.{ViolationKind}
use propfirm_engine.Rules.Verdict.{RuleVerdict, RuleReport, EvaluationScope, is_terminating}
use propfirm_engine.Rules.Params.{RuleParams, and_then}
use propfirm_engine.Rules.Context.{RuleContext, require_broker_equity}
use propfirm_engine.Rules.MaxDrawdown
use propfirm_engine.Rules.MaxDrawdown.Laws.{terminates-evaluate}
use propfirm_engine.Rules.DailyDrawdown
use propfirm_engine.Rules.DailyDrawdown.Laws.{terminates-evaluate_daily}
use propfirm_engine.Rules.Registry.{Rule, RuleRegistry, evaluate, run_rules, verdict_of, report_of}

module _ {D : Type 0} ⦃d : Decimal D⦄ where
  -- `MaxDrawdownRule` and `DailyDrawdownRule` as rules. The id is `RuleId::named` of their name.
  unfoldable pub max_drawdown_rule : Option (RuleParams D) → Uuid → Rule D
  max_drawdown_rule params id = record {
    id = id;
    name = "Maximum Drawdown";
    kind = ViolationKind.max_drawdown;
    scope = EvaluationScope.on_tick;
    priority = unwrap_or (and_then params (λ p. p.priority)) 1000;
    failure_policy = and_then params (λ p. p.failure_policy);
    is_enabled = λ ctx. MaxDrawdown.is_enabled params ctx.account;
    evaluate = MaxDrawdown.evaluate params;
  }

  unfoldable pub daily_drawdown_rule : Option (RuleParams D) → Uuid → Rule D
  daily_drawdown_rule params id = record {
    id = id;
    name = "Daily Drawdown";
    kind = ViolationKind.daily_drawdown;
    scope = EvaluationScope.on_tick;
    priority = unwrap_or (and_then params (λ p. p.priority)) 900;
    failure_policy = and_then params (λ p. p.failure_policy);
    is_enabled = λ ctx. DailyDrawdown.is_enabled params ctx.account;
    evaluate = DailyDrawdown.evaluate params;
  }

module _ {D : Type 0} where
  -- A rule that gives a verdict on every estimate, never one that terminates the account.
  pub SparesEstimates : Rule D → Type 0
  SparesEstimates rule =
      (fresh : Uuid) (ctx : RuleContext D)
      → require_broker_equity ctx ≡ none
      → (v : RuleVerdict D) × (rule.evaluate fresh ctx ≡ ok v) × (is_terminating v ≡ false)

  spared :
      (rule : Rule D) (fresh : Uuid) (ctx : RuleContext D)
      → SparesEstimates rule
      → require_broker_equity ctx ≡ none
      → is_terminating (verdict_of rule fresh ctx) ≡ false
  unfolding SparesEstimates verdict_of
  spared rule fresh ctx spares e =
      let (v, given, harmless) = spares fresh ctx e in ground (arith, given, harmless)

  run_rules_spared :
      (fresh : Uuid → Uuid) (ctx : RuleContext D) (rules : List (Rule D))
      → All SparesEstimates rules
      → require_broker_equity ctx ≡ none
      → any (λ r. is_terminating r.verdict) (run_rules fresh ctx rules) ≡ false
  unfolding run_rules report_of
  run_rules_spared fresh ctx [] h e = refl
  run_rules_spared fresh ctx (rule ∷ rules) (spares, rest) e =
      ground
        (arith, spared rule (fresh rule.id) ctx spares e, run_rules_spared fresh ctx rules rest e)

  -- The reports of a registry of such rules on an estimate: the evaluation succeeds, and no report
  -- terminates the account.
  pub evaluate_spared :
      (fresh : Uuid → Uuid) (reg : RuleRegistry D) (ctx : RuleContext D)
      → All SparesEstimates reg.rules
      → require_broker_equity ctx ≡ none
      → (reports : List (RuleReport D)) × (evaluate fresh reg ctx ≡ ok reports)
        × (any (λ r. is_terminating r.verdict) reports ≡ false)
  unfolding evaluate
  evaluate_spared fresh reg ctx h e =
      (run_rules fresh ctx reg.rules, refl, run_rules_spared fresh ctx reg.rules h e)

module _ {D : Type 0} ⦃d : Decimal D⦄ where
  pub drawdown_rules_spare :
      (params : Option (RuleParams D)) (id : Uuid)
      → SparesEstimates (max_drawdown_rule params id)
        × SparesEstimates (daily_drawdown_rule params id)
  unfolding SparesEstimates max_drawdown_rule daily_drawdown_rule
  drawdown_rules_spare params id = (
    λ fresh ctx e. elim (Result-cases (MaxDrawdown.evaluate params fresh ctx)) [
      | inl (v, given) ↦ (v, given, ground (arith, e, given, terminates-evaluate params fresh ctx))
      | inr (x, failed) ↦ absurd (ground (arith, failed, terminates-evaluate params fresh ctx))
    ],
    λ fresh ctx e. elim (Result-cases (DailyDrawdown.evaluate params fresh ctx)) [
      | inl (v, given) ↦
          (v, given, ground (arith, e, given, terminates-evaluate_daily params fresh ctx))
      | inr (x, failed) ↦
          absurd (ground (arith, e, failed, terminates-evaluate_daily params fresh ctx))
    ],
  )
