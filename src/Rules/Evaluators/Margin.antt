-- ===== src/Rules/Evaluators/Margin.antt =====
-- rules/evaluators/plan_caps.rs: the margin that an order needs. A contract size or a leverage of zero makes
-- a division panic.
use propfirm_engine.Base.{
  String, ◌||◌, List, [], ◌∷◌, keep, Option, none, some, if◌then◌else◌, Result, ok, err, panicked,
  ◌>>=◌,
}
use propfirm_engine.Base.Int.{pos}
use propfirm_engine.Decimal.{Decimal}
use propfirm_engine.Core.Ids.{Uuid}
use propfirm_engine.Core.Trading.{Position, is_open}
use propfirm_engine.Core.Order.{Order, OrderType, limit}
use propfirm_engine.Core.Instrument.{units_to_lots, notional, get}
use propfirm_engine.Core.Violation.{Violation, ViolationSeverity, ViolationKind}
use propfirm_engine.Rules.Verdict.{RuleVerdict}
use propfirm_engine.Rules.Context.{RuleContext, build_violation}

module _ {D : Type 0} ⦃d : Decimal D⦄ where
  open d use {nought, new, add, sub, mul, div, max, min, abs, lt, le, is_zero, to_u64, to_i64, sqrt}

  -- The margin of a quantity at a price.
  unfoldable pub margin_of : RuleContext D → String → D → D → Result D
  unfolding get units_to_lots notional
  margin_of ctx symbol quantity price =
      let spec = get ctx.instruments symbol in
      let leverage = new (pos ctx.account.plan.leverage) 0 in
      if is_zero spec.contract_size || is_zero leverage
      then err panicked
      else ok (div (notional spec (units_to_lots spec quantity) price) leverage)

  used_margin : RuleContext D → D → List (Position D) → Result D
  unfolding margin_of
  used_margin ctx used [] = ok used
  used_margin ctx used (p ∷ ps) =
      margin_of ctx p.symbol p.open_quantity p.avg_entry_price >>= λ margin.
      used_margin ctx (add used margin) ps

  unfoldable pub free_margin : RuleContext D → Result D
  unfolding used_margin is_open
  free_margin ctx = used_margin ctx nought (keep is_open ctx.open_positions) >>= λ used.
      ok (sub ctx.account.equity used)

  limit_price : OrderType D → Option D
  limit_price (limit price) = some price
  limit_price _ = none

  unfoldable pub price_of : Order D → Option D
  unfolding limit_price
  price_of order = elim order.avg_fill_price [
    | none ↦ limit_price order.order_type
    | some price ↦ some price
  ]

  violation_of : Uuid → RuleContext D → ViolationSeverity → Violation D
  violation_of id ctx severity = build_violation id "Margin" ViolationKind.custom ctx severity

  by_price : Uuid → RuleContext D → Order D → Option D → Result (RuleVerdict D)
  unfolding margin_of free_margin violation_of
  by_price id ctx order none = ok RuleVerdict.pass
  by_price id ctx order (some price) =
      margin_of ctx order.symbol order.quantity price >>= λ required. free_margin ctx >>= λ free.
      ok (
        if lt free required
        then RuleVerdict.fail (violation_of id ctx ViolationSeverity.hard)
        else RuleVerdict.pass)

  by_order : Uuid → RuleContext D → Option (Order D) → Result (RuleVerdict D)
  unfolding by_price price_of
  by_order id ctx none = ok RuleVerdict.pass
  by_order id ctx (some order) =
      if le order.quantity nought
      then ok RuleVerdict.pass
      else by_price id ctx order (price_of order)

  unfoldable pub evaluate : Uuid → RuleContext D → Result (RuleVerdict D)
  unfolding by_order
  evaluate id ctx = by_order id ctx ctx.pending_order
