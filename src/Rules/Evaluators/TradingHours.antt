-- ===== src/Rules/Evaluators/TradingHours.antt =====
-- rules/evaluators/plan_caps.rs: the hours in which orders are accepted.
use propfirm_engine.Base.{
  ℕ, Bool, ◌&&◌, ◌||◌, Option, none, some, is_some, if◌then◌else◌, ltb, leb, Result, ok,
}
use propfirm_engine.Core.Ids.{Uuid}
use propfirm_engine.Core.Calendar.{Calendar}
use propfirm_engine.Core.Order.{Order}
use propfirm_engine.Core.Account.{Account}
use propfirm_engine.Core.Violation.{Violation, ViolationSeverity, ViolationKind}
use propfirm_engine.Rules.Verdict.{RuleVerdict}
use propfirm_engine.Rules.Context.{RuleContext, build_violation}

-- The hours from `start` to `end`; past midnight if `start` is the greater one.
unfoldable pub in_window : ℕ → ℕ → ℕ → Bool
in_window start end hour =
    if leb start end then leb start hour && ltb hour end else leb start hour || ltb hour end

module _ {D : Type 0} where
  unfoldable pub is_enabled : Account D → Bool
  is_enabled a = is_some a.plan.trading_hours

  violation_of : Uuid → RuleContext D → ViolationSeverity → Violation D
  violation_of id ctx severity =
      build_violation id "Trading Hours" ViolationKind.custom ctx severity

  module _ ⦃c : Calendar⦄ where
    judge : Uuid → RuleContext D → Option (ℕ × ℕ) → Option (Order D) → RuleVerdict D
    unfolding violation_of in_window
    judge id ctx none order = RuleVerdict.pass
    judge id ctx (some hours) none = RuleVerdict.pass
    judge id ctx (some (start, end)) (some order) =
        if in_window start end (c.hour ctx.account.plan.timezone order.submitted_at)
        then RuleVerdict.pass
        else RuleVerdict.fail (violation_of id ctx ViolationSeverity.hard)

    unfoldable pub evaluate : Uuid → RuleContext D → Result (RuleVerdict D)
    unfolding judge
    evaluate id ctx = ok (judge id ctx ctx.account.plan.trading_hours ctx.pending_order)
