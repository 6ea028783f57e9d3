-- ===== src/Rules/Evaluators/MinProfitableDays.antt =====
-- rules/evaluators/min_profitable_days.rs
use propfirm_engine.Base.{ℕ, Bool, Option, none, some, is_some, Result, ok, ◌>>=◌}
use propfirm_engine.Decimal.{Decimal}
use propfirm_engine.Core.Ids.{Uuid}
use propfirm_engine.Core.Account.{Account}
use propfirm_engine.Core.Violation.{Violation, ViolationSeverity, ViolationKind}
use propfirm_engine.Rules.Verdict.{RuleVerdict}
use propfirm_engine.Rules.Params.{RuleParams, has_value, as_rule_eval, pack_count}
use propfirm_engine.Rules.Context.{RuleContext, build_violation}
use propfirm_engine.Rules.Evaluators.MinTradingDays.{judge_days}

module _ {D : Type 0} ⦃d : Decimal D⦄ where
  open d use {nought, new, add, sub, mul, div, max, min, abs, lt, le, is_zero, to_u64, to_i64, sqrt}

  unfoldable pub effective_days : Option (RuleParams D) → Account D → Result (Option ℕ)
  unfolding pack_count
  effective_days params a = pack_count params a.plan.min_profitable_days

  unfoldable pub is_enabled : Option (RuleParams D) → Account D → Bool
  is_enabled none a = is_some a.plan.min_profitable_days
  is_enabled (some p) a = has_value p

  violation_of : Uuid → RuleContext D → ViolationSeverity → Violation D
  violation_of id ctx severity =
      build_violation id "Minimum Profitable Trading Days" ViolationKind.min_profitable_days ctx
        severity

  unfoldable pub evaluate : Option (RuleParams D) → Uuid → RuleContext D → Result (RuleVerdict D)
  unfolding effective_days judge_days violation_of
  evaluate params id ctx = as_rule_eval (effective_days params ctx.account) >>= λ days. elim days [
    | none ↦ ok RuleVerdict.pass
    | some required ↦
        ok (judge_days (violation_of id ctx) ctx required ctx.account.profitable_days_count)
  ]
