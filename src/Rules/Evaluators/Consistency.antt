-- ===== src/Rules/Evaluators/Consistency.antt =====
-- rules/evaluators/consistency.rs
use propfirm_engine.Base.{
  Bool, true, false, not, ◌&&◌, Option, none, some, is_some, if◌then◌else◌, Result, ok, ◌>>=◌,
}
use propfirm_engine.Decimal.{Decimal}
use propfirm_engine.Core.Ids.{Uuid}
use propfirm_engine.Core.Plan.{
  ConsistencyType, no_rule, best_day_pct_of_total, best_day_pct_of_positive_days, ChallengePhase,
}
use propfirm_engine.Core.Account.{Account}
use propfirm_engine.Core.Violation.{Violation, ViolationSeverity, ViolationKind, with_breach}
use propfirm_engine.Rules.Verdict.{RuleVerdict}
use propfirm_engine.Rules.Params.{RuleParams, enabled_value, has_value, as_rule_eval, effective_pct}
use propfirm_engine.Rules.Context.{RuleContext, build_violation}

is_funded : ChallengePhase → Bool
is_funded ChallengePhase.funded = true
is_funded _ = false

module _ {D : Type 0} ⦃d : Decimal D⦄ where
  open d use {nought, new, add, sub, mul, div, max, min, abs, lt, le, is_zero, to_u64, to_i64, sqrt}

  pack_cap : RuleParams D → Account D → Option D → Result (Option D)
  unfolding effective_pct
  pack_cap p a none = ok none
  pack_cap p a (some v) =
      let denom = a.sum_positive_days_profit in
      if is_zero denom then ok none else effective_pct p denom >>= λ c. ok (some c)

  unfoldable pub effective_cap : Option (RuleParams D) → Account D → Result (Option D)
  unfolding pack_cap
  effective_cap none a = ok a.plan.consistency_pct
  effective_cap (some p) a = pack_cap p a (enabled_value p)

  unfoldable pub is_enabled : Option (RuleParams D) → Account D → Bool
  unfolding is_funded
  is_enabled none a =
      if is_funded a.plan.phase && not a.plan.consistency_applies_on_funded_stage
      then false
      else is_some a.plan.consistency_pct
  is_enabled (some p) a = has_value p

  -- What the largest day is compared with, by type; the first type has no rule.
  unfoldable pub total_of : ConsistencyType → Account D → Option D
  total_of no_rule a = none
  total_of best_day_pct_of_total a = some a.total_realized_pnl
  total_of best_day_pct_of_positive_days a = some a.sum_positive_days_profit

  violation_of : Uuid → RuleContext D → ViolationSeverity → Violation D
  violation_of id ctx severity =
      build_violation id "Consistency" ViolationKind.consistency ctx severity

  judge : Uuid → RuleContext D → D → D → RuleVerdict D
  unfolding violation_of with_breach
  judge id ctx cap_pct total =
      let largest = ctx.account.largest_day_profit in
      let cap = mul cap_pct total in
      if le total nought
      then RuleVerdict.pass
      else if le largest nought
      then RuleVerdict.pass
      else if lt cap largest
      then RuleVerdict.warn
          (with_breach (violation_of id ctx ViolationSeverity.warning) largest cap)
      else RuleVerdict.pass

  unfoldable pub evaluate : Option (RuleParams D) → Uuid → RuleContext D → Result (RuleVerdict D)
  unfolding total_of effective_cap judge
  evaluate params id ctx = elim (total_of ctx.account.plan.consistency_type ctx.account) [
    | none ↦ ok RuleVerdict.pass
    | some total ↦ as_rule_eval (effective_cap params ctx.account) >>= λ cap. elim cap [
      | none ↦ ok RuleVerdict.pass
      | some cap_pct ↦ ok (judge id ctx cap_pct total)
    ]
  ]
