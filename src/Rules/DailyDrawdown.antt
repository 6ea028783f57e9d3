-- ===== src/Rules/DailyDrawdown.antt =====
-- rules/evaluators/daily_drawdown.rs
pub mod Laws
use propfirm_engine.Base.{
  Bool, true, false, not, ◌&&◌, Option, none, some, unwrap_or, if◌then◌else◌, Result, ok, err,
  is_some, panicked,
}
use propfirm_engine.Decimal.{Decimal}
use propfirm_engine.Core.Ids.{Uuid}
use propfirm_engine.Core.Plan.{
  DailyLossType, no_limit, pct_initial, pct_prior_day, trailing_intraday_high,
}
use propfirm_engine.Core.Account.{Account}
use propfirm_engine.Core.Violation.{Violation, ViolationSeverity, ViolationKind, with_breach}
use propfirm_engine.Rules.Verdict.{RuleVerdict}
use propfirm_engine.Rules.Params.{RuleParams, and_then, is_disabled, rule_tolerance, rule_warn_pct}
use propfirm_engine.Rules.Context.{
  RuleContext, require_started, require_broker_equity, build_violation,
}

module _ {D : Type 0} ⦃d : Decimal D⦄ where
  open d use {nought, add, sub, mul, div, max, lt, le, is_zero}

  unfoldable pub effective_pct : Option (RuleParams D) → Account D → D
  effective_pct params a = unwrap_or (and_then params (λ p. p.value)) a.plan.max_daily_drawdown_pct

  unfoldable pub is_enabled : Option (RuleParams D) → Account D → Bool
  unfolding effective_pct
  is_enabled params a = not (is_disabled params) && lt nought (effective_pct params a)

  abbrev pub day_start : Account D → D
  day_start a = if a.plan.drawdown_on_balance then a.day_start_balance else a.day_start_equity

  abbrev pub current : Account D → D
  current a = if a.plan.drawdown_on_balance then a.balance else a.equity

  -- The reference of the limit, and the anchor that the drawdown is measured from. No limit has
  -- neither.
  unfoldable pub anchors : DailyLossType → Account D → Option (D × D)
  anchors no_limit a = none
  anchors pct_initial a = some (a.initial_balance, day_start a)
  anchors pct_prior_day a = some (day_start a, day_start a)
  anchors trailing_intraday_high a =
      let peak = if a.plan.drawdown_on_balance then a.peak_balance else a.intraday_peak_equity in
      some (peak, peak)

  violation_of : Uuid → RuleContext D → ViolationSeverity → Violation D
  violation_of id ctx severity =
      build_violation id "Daily Drawdown" ViolationKind.daily_drawdown ctx severity

  breach : Bool → Uuid → RuleContext D → D → D → RuleVerdict D
  unfolding violation_of with_breach
  breach soft id ctx dd limit =
      if soft
      then RuleVerdict.early_warning
          (with_breach (violation_of id ctx ViolationSeverity.warning) dd limit)
      else RuleVerdict.liquidate
          (with_breach (violation_of id ctx ViolationSeverity.liquidate) dd limit)

  -- The message of the warning divides the drawdown by the limit, which panics on zero.
  judge : Option (RuleParams D) → Uuid → RuleContext D → D → D → Result (RuleVerdict D)
  unfolding effective_pct breach violation_of with_breach rule_tolerance rule_warn_pct
  judge params id ctx reference anchor =
      let a = ctx.account in
      let dd = max (sub anchor (current a)) nought in
      let limit = mul (effective_pct params a) reference in
      if lt (add limit (rule_tolerance params)) dd
      then ok (breach a.plan.daily_loss_soft id ctx dd limit)
      else if le (mul limit (rule_warn_pct params)) dd
      then if is_zero limit
        then err panicked
        else ok (
            RuleVerdict.early_warning
              (with_breach (violation_of id ctx ViolationSeverity.warning) dd limit))
      else ok RuleVerdict.pass

  unfoldable pub evaluate : Option (RuleParams D) → Uuid → RuleContext D → Result (RuleVerdict D)
  unfolding effective_pct anchors judge violation_of
  evaluate params id ctx =
      if le (effective_pct params ctx.account) nought
      then ok RuleVerdict.pass
      else if not (require_started ctx && is_some (require_broker_equity ctx))
      then ok (RuleVerdict.gap_flagged (violation_of id ctx ViolationSeverity.info))
      else elim (anchors ctx.account.plan.daily_loss_type ctx.account) [
        | none ↦ ok RuleVerdict.pass
        | some (reference, anchor) ↦ judge params id ctx reference anchor
      ]
