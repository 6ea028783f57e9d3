-- ===== src/Rules/Evaluators/MaxPositionSize.antt =====
-- rules/evaluators/max_position_size.rs. A contract size of zero makes the conversion to lots panic.
use propfirm_engine.Base.{
  Bool, Option, none, some, is_some, if◌then◌else◌, Result, ok, err, panicked,
}
use propfirm_engine.Base.Int.{pos}
use propfirm_engine.Decimal.{Decimal}
use propfirm_engine.Core.Ids.{Uuid}
use propfirm_engine.Core.Order.{Order}
use propfirm_engine.Core.Instrument.{units_to_lots, get}
use propfirm_engine.Core.Account.{Account}
use propfirm_engine.Core.Violation.{Violation, ViolationSeverity, ViolationKind}
use propfirm_engine.Rules.Verdict.{RuleVerdict}
use propfirm_engine.Rules.Params.{RuleParams, enabled_value, has_value}
use propfirm_engine.Rules.Context.{RuleContext, build_violation}

module _ {D : Type 0} ⦃d : Decimal D⦄ where
  open d use {nought, new, add, sub, mul, div, max, min, abs, lt, le, is_zero, to_u64, to_i64, sqrt}

  unfoldable pub effective_max_lots : Option (RuleParams D) → Account D → Option D
  effective_max_lots none a = a.plan.max_position_lots
  effective_max_lots (some p) a = enabled_value p

  unfoldable pub is_enabled : Option (RuleParams D) → Account D → Bool
  is_enabled none a = is_some a.plan.max_position_lots
  is_enabled (some p) a = has_value p

  violation_of : Uuid → RuleContext D → ViolationSeverity → Violation D
  violation_of id ctx severity =
      build_violation id "Max Position Size" ViolationKind.max_position_size ctx severity

  judge : Uuid → RuleContext D → D → D → RuleVerdict D
  unfolding violation_of
  judge id ctx max_lots order_lots =
      if lt max_lots order_lots
      then RuleVerdict.fail (violation_of id ctx ViolationSeverity.hard)
      else if lt (mul max_lots (new (pos 8) 1)) order_lots
      then RuleVerdict.warn (violation_of id ctx ViolationSeverity.warning)
      else RuleVerdict.pass

  by_order : Uuid → RuleContext D → D → Option (Order D) → Result (RuleVerdict D)
  unfolding judge get units_to_lots
  by_order id ctx max_lots none = ok RuleVerdict.pass
  by_order id ctx max_lots (some order) =
      let spec = get ctx.instruments order.symbol in
      if is_zero spec.contract_size
      then err panicked
      else ok (judge id ctx max_lots (units_to_lots spec order.quantity))

  unfoldable pub evaluate : Option (RuleParams D) → Uuid → RuleContext D → Result (RuleVerdict D)
  unfolding effective_max_lots by_order
  evaluate params id ctx = elim (effective_max_lots params ctx.account) [
    | none ↦ ok RuleVerdict.pass
    | some max_lots ↦ by_order id ctx max_lots ctx.pending_order
  ]
