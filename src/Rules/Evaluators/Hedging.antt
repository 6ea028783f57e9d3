-- ===== src/Rules/Evaluators/Hedging.antt =====
-- rules/evaluators/hedging.rs
use propfirm_engine.Base.{
  Bool, true, false, not, ◌&&◌, any, Option, none, some, if◌then◌else◌, same_string, Result, ok,
}
use propfirm_engine.Decimal.{Decimal}
use propfirm_engine.Core.Ids.{Uuid}
use propfirm_engine.Core.Trading.{Position, PositionSide, from_order, is_open, long, short}
use propfirm_engine.Core.Order.{Order}
use propfirm_engine.Core.Account.{Account}
use propfirm_engine.Core.Violation.{Violation, ViolationSeverity, ViolationKind}
use propfirm_engine.Rules.Verdict.{RuleVerdict}
use propfirm_engine.Rules.Params.{RuleParams}
use propfirm_engine.Rules.Context.{RuleContext, build_violation, is_opening}

abbrev same_side : PositionSide → PositionSide → Bool
same_side long long = true
same_side short short = true
same_side _ _ = false

module _ {D : Type 0} ⦃d : Decimal D⦄ where
  open d use {nought, new, add, sub, mul, div, max, min, abs, lt, le, is_zero, to_u64, to_i64, sqrt}

  unfoldable pub is_enabled : Option (RuleParams D) → Account D → Bool
  is_enabled none a = not a.plan.hedging_allowed
  is_enabled (some p) a = p.enabled && not a.plan.hedging_allowed

  -- An open position in the symbol of the order, on the other side.
  unfoldable pub opposes : Order D → Position D → Bool
  unfolding is_open
  opposes order p =
      is_open p
      && (same_string p.symbol order.symbol && not (same_side p.side (from_order order.side)))

  violation_of : Uuid → RuleContext D → ViolationSeverity → Violation D
  violation_of id ctx severity = build_violation id "Hedging" ViolationKind.hedging ctx severity

  judge : Uuid → RuleContext D → Option (Order D) → RuleVerdict D
  unfolding violation_of opposes
  judge id ctx none = RuleVerdict.pass
  judge id ctx (some order) =
      if not (is_opening order)
      then RuleVerdict.pass
      else if any (opposes order) ctx.open_positions
      then RuleVerdict.fail (violation_of id ctx ViolationSeverity.hard)
      else RuleVerdict.pass

  unfoldable pub evaluate : Option (RuleParams D) → Uuid → RuleContext D → Result (RuleVerdict D)
  unfolding judge
  evaluate params id ctx =
      if ctx.account.plan.hedging_allowed
      then ok RuleVerdict.pass
      else ok (judge id ctx ctx.pending_order)
