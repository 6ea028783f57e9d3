-- ===== src/Rules/Evaluators/WeekendHolding.antt =====
-- rules/evaluators/weekend_holding.rs
use propfirm_engine.Base.{
  ℕ, Bool, not, ◌&&◌, ◌||◌, is_empty, Option, none, some, is_some, if◌then◌else◌, ◌==◌, leb, Result,
  ok,
}
use propfirm_engine.Core.Ids.{Uuid}
use propfirm_engine.Core.Calendar.{Calendar}
use propfirm_engine.Core.Account.{Account}
use propfirm_engine.Core.Violation.{Violation, ViolationSeverity, ViolationKind}
use propfirm_engine.Rules.Verdict.{RuleVerdict}
use propfirm_engine.Rules.Params.{RuleParams}
use propfirm_engine.Rules.Context.{RuleContext, build_violation}
use propfirm_engine.Rules.Config.{WeekendConfig}

-- Friday from the given hour on, Saturday and Sunday. Weekdays count from Monday.
unfoldable pub in_weekend : ℕ → ℕ → ℕ → Bool
in_weekend from weekday hour = (weekday == 4 && leb from hour) || (weekday == 5 || weekday == 6)

module _ {D : Type 0} where
  unfoldable pub is_enabled : Option (RuleParams D) → Account D → Bool
  is_enabled none a = not a.plan.weekend_holding_allowed
  is_enabled (some p) a = p.enabled && not a.plan.weekend_holding_allowed

  violation_of : Uuid → RuleContext D → ViolationSeverity → Violation D
  violation_of id ctx severity =
      build_violation id "Weekend Holding" ViolationKind.weekend_holding ctx severity

  held : Uuid → RuleContext D → RuleVerdict D
  unfolding violation_of
  held id ctx =
      if is_some ctx.pending_order
      then RuleVerdict.fail (violation_of id ctx ViolationSeverity.hard)
      else if not (is_empty ctx.open_positions)
      then RuleVerdict.warn (violation_of id ctx ViolationSeverity.warning)
      else RuleVerdict.pass

  module _ ⦃c : Calendar⦄ where
    judge : Uuid → RuleContext D → Option WeekendConfig → RuleVerdict D
    unfolding held in_weekend
    judge id ctx none = RuleVerdict.pass
    judge id ctx (some cfg) =
        let now = ctx.server_time in
        if in_weekend cfg.forbidden_from_hour (c.weekday now) (c.hour none now)
        then held id ctx
        else RuleVerdict.pass

    unfoldable pub evaluate : Option (RuleParams D) → Uuid → RuleContext D → Result (RuleVerdict D)
    unfolding judge
    evaluate params id ctx =
        if ctx.account.plan.weekend_holding_allowed
        then ok RuleVerdict.pass
        else ok (judge id ctx ctx.rule_config.weekend_holding)
