-- ===== src/Rules/Evaluators/PerTradeMaxLoss.antt =====
-- rules/evaluators/per_trade_max_loss.rs
use propfirm_engine.Base.{
  Bool, ◌||◌, Option, none, some, is_some, unwrap_or, if◌then◌else◌, Result, ok,
}
use propfirm_engine.Base.Int.{pos}
use propfirm_engine.Decimal.{Decimal}
use propfirm_engine.Core.Ids.{Uuid}
use propfirm_engine.Core.Trading.{Trade, exit}
use propfirm_engine.Core.Account.{Account}
use propfirm_engine.Core.Violation.{Violation, ViolationSeverity, ViolationKind}
use propfirm_engine.Rules.Verdict.{RuleVerdict}
use propfirm_engine.Rules.Params.{
  RuleParams, is_money, tolerance_money, has_value, effective_money, and_then,
}
use propfirm_engine.Rules.Context.{RuleContext, require_broker_equity, build_violation}

module _ {D : Type 0} ⦃d : Decimal D⦄ where
  open d use {nought, new, add, sub, mul, div, max, min, abs, lt, le, is_zero, to_u64, to_i64, sqrt}

  abbrev least : Option D → Option D → Option D
  least none b = b
  least (some a) none = some a
  least (some a) (some b) = some (min a b)

  abbrev times : Option D → D → Option D
  times none b = none
  times (some a) b = some (mul a b)

  -- An amount of money without a value is a limit of zero.
  unfoldable pub effective_limit_money : Option (RuleParams D) → Account D → Option D
  unfolding effective_money
  effective_limit_money none a =
      least (times a.plan.per_trade_max_loss_pct a.balance) a.plan.per_trade_max_loss_money
  effective_limit_money (some p) a =
      if is_money p.unit then some (unwrap_or p.value nought) else effective_money p a.balance

  unfoldable pub is_enabled : Option (RuleParams D) → Account D → Bool
  is_enabled none a =
      is_some a.plan.per_trade_max_loss_pct || is_some a.plan.per_trade_max_loss_money
  is_enabled (some p) a = has_value p

  violation_of : Uuid → RuleContext D → ViolationSeverity → Violation D
  violation_of id ctx severity =
      build_violation id "Per-Trade Max Loss" ViolationKind.custom ctx severity

  -- The loss of a trade as a positive amount; of a closing trade that lost.
  unfoldable pub loss_of : Option (Trade D) → Option D
  loss_of none = none
  loss_of (some trade) = elim trade.trade_side [
    | exit ↦ elim trade.exit_info [
      | none ↦ none
      | some info ↦ if le nought info.realized_pnl then none else some (abs info.realized_pnl)
    ]
    | _ ↦ none
  ]

  judge : Option (RuleParams D) → Uuid → RuleContext D → D → D → RuleVerdict D
  unfolding violation_of tolerance_money
  judge params id ctx max_loss loss =
      let tolerance =
        tolerance_money (unwrap_or (and_then params (λ p. p.tolerance_cents)) (pos 1)) in
      if lt (add max_loss tolerance) loss
      then (if is_some (require_broker_equity ctx)
          then RuleVerdict.liquidate (violation_of id ctx ViolationSeverity.liquidate)
          else RuleVerdict.warn (violation_of id ctx ViolationSeverity.warning))
      else if le (mul max_loss (new (pos 8) 1)) loss
      then RuleVerdict.early_warning (violation_of id ctx ViolationSeverity.warning)
      else RuleVerdict.pass

  unfoldable pub evaluate : Option (RuleParams D) → Uuid → RuleContext D → Result (RuleVerdict D)
  unfolding loss_of effective_limit_money judge
  evaluate params id ctx = elim (loss_of ctx.latest_trade) [
    | none ↦ ok RuleVerdict.pass
    | some loss ↦ elim (effective_limit_money params ctx.account) [
      | none ↦ ok RuleVerdict.pass
      | some max_loss ↦ ok (judge params id ctx max_loss loss)
    ]
  ]
