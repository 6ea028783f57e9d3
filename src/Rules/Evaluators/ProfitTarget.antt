-- ===== src/Rules/Evaluators/ProfitTarget.antt =====
-- rules/evaluators/profit_target.rs
use propfirm_engine.Base.{
  Bool, not, ◌&&◌, Option, none, some, is_some, if◌then◌else◌, ltb, Result, ok,
}
use propfirm_engine.Decimal.{Decimal}
use propfirm_engine.Core.Ids.{Uuid, Timestamp}
use propfirm_engine.Core.Account.{Account, profit_target, net_profit}
use propfirm_engine.Core.Violation.{Violation, ViolationSeverity, ViolationKind, with_breach}
use propfirm_engine.Rules.Verdict.{RuleVerdict}
use propfirm_engine.Rules.Params.{RuleParams, is_money, is_disabled}
use propfirm_engine.Rules.Context.{RuleContext, build_violation}

module _ {D : Type 0} ⦃d : Decimal D⦄ where
  open d use {nought, new, add, sub, mul, div, max, min, abs, lt, le, is_zero, to_u64, to_i64, sqrt}

  unfoldable pub is_enabled : Option (RuleParams D) → Account D → Bool
  is_enabled none a = lt nought a.plan.profit_target_pct
  is_enabled (some p) a = p.enabled

  unfoldable pub target_of : Option (RuleParams D) → Account D → D
  target_of none a = profit_target a
  target_of (some p) a = elim p.value [
    | none ↦ profit_target a
    | some v ↦ if is_money p.unit then v else mul v a.initial_balance
  ]

  violation_of : Uuid → RuleContext D → ViolationSeverity → Violation D
  violation_of id ctx severity =
      build_violation id "Profit Target" ViolationKind.profit_target_missed ctx severity

  -- Past the deadline, a target that was not reached is a failure.
  by_deadline : Uuid → RuleContext D → D → Option Timestamp → RuleVerdict D
  unfolding violation_of with_breach
  by_deadline id ctx target none = RuleVerdict.pass
  by_deadline id ctx target (some deadline) =
      if ltb deadline ctx.server_time
      then RuleVerdict.fail (with_breach (violation_of id ctx ViolationSeverity.hard) target target)
      else RuleVerdict.pass

  unfoldable pub evaluate : Option (RuleParams D) → Uuid → RuleContext D → Result (RuleVerdict D)
  unfolding target_of violation_of by_deadline with_breach net_profit
  evaluate params id ctx =
      let a = ctx.account in
      let target = target_of params a in
      let net = net_profit a in
      if is_disabled params
      then ok RuleVerdict.pass
      else if le target nought
      then ok RuleVerdict.pass
      else if not (is_some a.target_reached_at) && le target net
      then ok (
          RuleVerdict.target_hit
            (with_breach (violation_of id ctx ViolationSeverity.info) (max net nought) target))
      else if is_some a.target_reached_at
      then ok RuleVerdict.pass
      else ok (by_deadline id ctx target a.deadline)
