-- ===== src/Rules/Evaluators/TakeProfitRequired.antt =====
-- rules/evaluators/tp_required.rs
use propfirm_engine.Base.{Bool, not, Option, none, some, is_some, if◌then◌else◌, Result, ok}
use propfirm_engine.Decimal.{Decimal}
use propfirm_engine.Core.Ids.{Uuid}
use propfirm_engine.Core.Order.{Order}
use propfirm_engine.Core.Account.{Account}
use propfirm_engine.Core.Violation.{Violation, ViolationSeverity, ViolationKind}
use propfirm_engine.Rules.Verdict.{RuleVerdict}
use propfirm_engine.Rules.Params.{RuleParams}
use propfirm_engine.Rules.Context.{RuleContext, build_violation, is_opening}

module _ {D : Type 0} ⦃d : Decimal D⦄ where
  open d use {nought, new, add, sub, mul, div, max, min, abs, lt, le, is_zero, to_u64, to_i64, sqrt}

  unfoldable pub is_enabled : Option (RuleParams D) → Account D → Bool
  is_enabled none a = a.plan.require_take_profit
  is_enabled (some p) a = p.enabled

  violation_of : Uuid → RuleContext D → ViolationSeverity → Violation D
  violation_of id ctx severity =
      build_violation id "Take-Profit Required" ViolationKind.missing_take_profit ctx severity

  judge : Uuid → RuleContext D → Option (Order D) → RuleVerdict D
  unfolding violation_of
  judge id ctx none = RuleVerdict.pass
  judge id ctx (some order) =
      if not (is_opening order)
      then RuleVerdict.pass
      else if not (is_some order.take_profit)
      then RuleVerdict.warn (violation_of id ctx ViolationSeverity.warning)
      else RuleVerdict.pass

  unfoldable pub evaluate : Option (RuleParams D) → Uuid → RuleContext D → Result (RuleVerdict D)
  unfolding judge
  evaluate params id ctx =
      if not ctx.account.plan.require_take_profit
      then ok RuleVerdict.pass
      else ok (judge id ctx ctx.pending_order)
