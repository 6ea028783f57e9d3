-- ===== src/Rules/Evaluators/TrailingDrawdown.antt =====
-- rules/evaluators/trailing_drawdown.rs
use propfirm_engine.Base.{Bool, ◌&&◌, Option, none, some, if◌then◌else◌, Result, ok}
use propfirm_engine.Base.Int.{pos}
use propfirm_engine.Decimal.{Decimal}
use propfirm_engine.Core.Ids.{Uuid}
use propfirm_engine.Core.Account.{Account}
use propfirm_engine.Core.Violation.{Violation, ViolationSeverity, ViolationKind, with_breach}
use propfirm_engine.Rules.Verdict.{RuleVerdict}
use propfirm_engine.Rules.Params.{RuleParams, is_money, enabled_value, has_value}
use propfirm_engine.Rules.Context.{
  RuleContext, require_started, require_broker_equity, build_violation,
}

module _ {D : Type 0} ⦃d : Decimal D⦄ where
  open d use {nought, new, add, sub, mul, div, max, min, abs, lt, le, is_zero, to_u64, to_i64, sqrt}

  unfoldable pub effective_trail_money : Option (RuleParams D) → Account D → Option D
  effective_trail_money none a =
      if a.plan.trailing_drawdown_enabled
      then some (mul a.plan.trailing_drawdown_pct a.peak_equity)
      else none
  effective_trail_money (some p) a = elim (enabled_value p) [
    | none ↦ none
    | some v ↦ some (if is_money p.unit then v else mul v a.peak_equity)
  ]

  unfoldable pub is_enabled : Option (RuleParams D) → Account D → Bool
  is_enabled none a = a.plan.trailing_drawdown_enabled && lt nought a.plan.trailing_drawdown_pct
  is_enabled (some p) a = has_value p

  violation_of : Uuid → RuleContext D → ViolationSeverity → Violation D
  violation_of id ctx severity =
      build_violation id "Trailing Drawdown" ViolationKind.trailing_drawdown ctx severity

  -- The floor that the trail leaves, and the line below which a warning is given.
  abbrev pub floor_of : D → Account D → D
  floor_of trail a = sub a.peak_equity trail

  abbrev pub warn_floor_of : D → Account D → D
  warn_floor_of trail a = add (floor_of trail a) (mul trail (new (pos 2) 1))

  judge : Uuid → RuleContext D → D → D → RuleVerdict D
  unfolding violation_of with_breach
  judge id ctx trail equity =
      let floor = floor_of trail ctx.account in
      let warn_floor = warn_floor_of trail ctx.account in
      if lt equity floor
      then RuleVerdict.liquidate
          (with_breach (violation_of id ctx ViolationSeverity.liquidate) (sub floor equity) trail)
      else if lt equity warn_floor
      then RuleVerdict.early_warning (
          with_breach (violation_of id ctx ViolationSeverity.warning) (sub warn_floor equity) trail)
      else RuleVerdict.pass

  -- What is at hand once there is a trail: a start, and the equity of the broker.
  guarded : Uuid → RuleContext D → D → Option D → RuleVerdict D
  unfolding judge violation_of
  guarded id ctx trail none = RuleVerdict.gap_flagged (violation_of id ctx ViolationSeverity.info)
  guarded id ctx trail (some equity) =
      if require_started ctx
      then judge id ctx trail equity
      else RuleVerdict.gap_flagged (violation_of id ctx ViolationSeverity.info)

  unfoldable pub evaluate : Option (RuleParams D) → Uuid → RuleContext D → Result (RuleVerdict D)
  unfolding effective_trail_money guarded
  evaluate params id ctx = elim (effective_trail_money params ctx.account) [
    | none ↦ ok RuleVerdict.pass
    | some trail ↦ ok (guarded id ctx trail (require_broker_equity ctx))
  ]
