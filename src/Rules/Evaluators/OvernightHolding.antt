-- ===== src/Rules/Evaluators/OvernightHolding.antt =====
-- rules/evaluators/overnight_holding.rs
use propfirm_engine.Base.{
  ℕ, Bool, not, ◌&&◌, ◌||◌, is_empty, Option, none, some, is_some, if◌then◌else◌, ltb, leb, Result,
  ok,
}
use propfirm_engine.Core.Ids.{Uuid}
use propfirm_engine.Core.Calendar.{Calendar}
use propfirm_engine.Core.Account.{Account}
use propfirm_engine.Core.Violation.{Violation, ViolationSeverity, ViolationKind}
use propfirm_engine.Rules.Verdict.{RuleVerdict}
use propfirm_engine.Rules.Params.{RuleParams}
use propfirm_engine.Rules.Context.{RuleContext, build_violation}
use propfirm_engine.Rules.Config.{OvernightConfig}

-- The hours from `from` to `to`; past midnight if `from` is not the smaller one.
unfoldable pub in_forbidden : ℕ → ℕ → ℕ → Bool
in_forbidden from to hour =
    if ltb from to then leb from hour && ltb hour to else leb from hour || ltb hour to

module _ {D : Type 0} where
  unfoldable pub is_enabled : Option (RuleParams D) → Account D → Bool
  is_enabled none a = not a.plan.overnight_holding_allowed
  is_enabled (some p) a = p.enabled && not a.plan.overnight_holding_allowed

  violation_of : Uuid → RuleContext D → ViolationSeverity → Violation D
  violation_of id ctx severity =
      build_violation id "Overnight Holding" ViolationKind.overnight_holding ctx severity

  held : Uuid → RuleContext D → RuleVerdict D
  unfolding violation_of
  held id ctx =
      if is_empty ctx.open_positions && not (is_some ctx.pending_order)
      then RuleVerdict.pass
      else if is_some ctx.pending_order
      then RuleVerdict.fail (violation_of id ctx ViolationSeverity.hard)
      else RuleVerdict.warn (violation_of id ctx ViolationSeverity.warning)

  module _ ⦃c : Calendar⦄ where
    judge : Uuid → RuleContext D → Option OvernightConfig → RuleVerdict D
    unfolding held in_forbidden
    judge id ctx none = RuleVerdict.pass
    judge id ctx (some cfg) =
        if in_forbidden cfg.forbidden_from_hour cfg.forbidden_to_hour (c.hour none ctx.server_time)
        then held id ctx
        else RuleVerdict.pass

    unfoldable pub evaluate : Option (RuleParams D) → Uuid → RuleContext D → Result (RuleVerdict D)
    unfolding judge
    evaluate params id ctx =
        if ctx.account.plan.overnight_holding_allowed
        then ok RuleVerdict.pass
        else ok (judge id ctx ctx.rule_config.overnight_holding)
