-- ===== src/Rules/MaxDrawdown.antt =====
-- rules/evaluators/max_drawdown.rs
pub mod Laws
use propfirm_engine.Base.{
  Bool, true, false, not, ◌&&◌, Option, none, some, unwrap_or, if◌then◌else◌, Result, ok, is_some,
}
use propfirm_engine.Base.Int.{pos}
use propfirm_engine.Decimal.{Decimal}
use propfirm_engine.Core.Ids.{Uuid}
use propfirm_engine.Core.Plan.{LossReference}
use propfirm_engine.Core.Account.{Account, loss_reference, intraday_peak}
use propfirm_engine.Core.Violation.{Violation, ViolationSeverity, ViolationKind, with_breach}
use propfirm_engine.Rules.Verdict.{RuleVerdict}
use propfirm_engine.Rules.Params.{
  RuleParams, and_then, is_money, is_disabled, rule_tolerance, rule_warn_pct,
}
use propfirm_engine.Rules.Context.{
  RuleContext, require_started, require_broker_equity, build_violation,
}

module _ {D : Type 0} ⦃d : Decimal D⦄ where
  open d use {nought, add, sub, mul, div, max, min, lt, le, is_zero}

  unfoldable pub effective_basis : Option (RuleParams D) → Account D → LossReference
  effective_basis params a = unwrap_or (and_then params (λ p. p.basis)) a.plan.max_loss_reference

  -- A value of the pack, read through its unit.
  value_pct : Option (RuleParams D) → RuleParams D → Account D → D → D
  unfolding effective_basis loss_reference
  value_pct params p a v =
      let reference = loss_reference (effective_basis params a) a in
      if is_money p.unit && not (is_zero reference) then div v reference else v

  unfoldable pub effective_pct : Option (RuleParams D) → Account D → D
  unfolding value_pct
  effective_pct none a = a.plan.max_total_drawdown_pct
  effective_pct (some p) a = elim p.value [
    | none ↦ a.plan.max_total_drawdown_pct
    | some v ↦ value_pct (some p) p a v
  ]

  unfoldable pub is_enabled : Option (RuleParams D) → Account D → Bool
  unfolding effective_pct
  is_enabled params a = not (is_disabled params) && lt nought (effective_pct params a)

  -- The floor that `evaluate` compares with, by basis.
  unfoldable pub floor_of : LossReference → D → Account D → D
  floor_of LossReference.static pct a = sub a.initial_balance (mul pct a.initial_balance)
  floor_of LossReference.trailing pct a = sub a.peak_balance (mul pct a.peak_balance)
  floor_of LossReference.eod_trailing pct a =
      let unlocked_floor = sub a.day_start_balance (mul pct a.initial_balance) in
      if a.plan.eod_trail_locks_at_start
      then min unlocked_floor a.initial_balance
      else unlocked_floor
  floor_of LossReference.intraday_trail pct a =
      let peak = intraday_peak a in sub peak (mul pct peak)

  violation_of : Uuid → RuleContext D → ViolationSeverity → Violation D
  violation_of id ctx severity =
      build_violation id "Maximum Drawdown" ViolationKind.max_drawdown ctx severity

  -- The body of `evaluate` once the account has started and the broker's equity is at hand.
  judge : Option (RuleParams D) → Uuid → RuleContext D → D → RuleVerdict D
  unfolding effective_basis effective_pct floor_of violation_of with_breach rule_tolerance
      rule_warn_pct loss_reference
  judge params id ctx equity =
      let a = ctx.account in
      let basis = effective_basis params a in
      let current = if a.plan.drawdown_on_balance then a.balance else equity in
      let floor = floor_of basis (effective_pct params a) a in
      let reference = loss_reference basis a in
      let dd = max (sub reference current) nought in
      let limit_dollars = max (sub reference floor) nought in
      let tolerance = rule_tolerance params in
      let warn = add floor (mul limit_dollars (rule_warn_pct params)) in
      if lt current (sub floor tolerance)
      then RuleVerdict.liquidate
          (with_breach (violation_of id ctx ViolationSeverity.liquidate) dd limit_dollars)
      else if le current warn
      then RuleVerdict.early_warning
          (with_breach (violation_of id ctx ViolationSeverity.warning) dd limit_dollars)
      else RuleVerdict.pass

  unfoldable pub evaluate : Option (RuleParams D) → Uuid → RuleContext D → Result (RuleVerdict D)
  unfolding judge violation_of effective_pct
  evaluate params id ctx =
      if le (effective_pct params ctx.account) nought
      then ok RuleVerdict.pass
      else if not (require_started ctx)
      then ok (RuleVerdict.gap_flagged (violation_of id ctx ViolationSeverity.info))
      else elim (require_broker_equity ctx) [
        | none ↦ ok (RuleVerdict.gap_flagged (violation_of id ctx ViolationSeverity.info))
        | some equity ↦ ok (judge params id ctx equity)
      ]
