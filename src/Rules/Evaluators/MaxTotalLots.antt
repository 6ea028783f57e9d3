-- ===== src/Rules/Evaluators/MaxTotalLots.antt =====
-- rules/evaluators/plan_caps.rs: the cap on the lots of all positions together.
use propfirm_engine.Base.{
  String, Bool, List, [], ◌∷◌, keep, Option, none, some, is_some, if◌then◌else◌, Result, ok, err,
  panicked, ◌>>=◌,
}
use propfirm_engine.Decimal.{Decimal}
use propfirm_engine.Core.Ids.{Uuid}
use propfirm_engine.Core.Trading.{Position, is_open}
use propfirm_engine.Core.Order.{Order}
use propfirm_engine.Core.Instrument.{InstrumentRegistry, units_to_lots, get}
use propfirm_engine.Core.Account.{Account}
use propfirm_engine.Core.Violation.{Violation, ViolationSeverity, ViolationKind}
use propfirm_engine.Rules.Verdict.{RuleVerdict}
use propfirm_engine.Rules.Params.{RuleParams, enabled_value, has_value}
use propfirm_engine.Rules.Context.{RuleContext, build_violation}

module _ {D : Type 0} ⦃d : Decimal D⦄ where
  open d use {nought, new, add, sub, mul, div, max, min, abs, lt, le, is_zero, to_u64, to_i64, sqrt}

  unfoldable pub effective_max_lots : Option (RuleParams D) → Account D → Option D
  effective_max_lots none a = a.plan.max_total_lots
  effective_max_lots (some p) a = enabled_value p

  unfoldable pub is_enabled : Option (RuleParams D) → Account D → Bool
  is_enabled none a = is_some a.plan.max_total_lots
  is_enabled (some p) a = has_value p

  -- A contract size of zero makes the conversion panic.
  lots_of : InstrumentRegistry D → String → D → Result D
  unfolding get units_to_lots
  lots_of instruments symbol quantity =
      let spec = get instruments symbol in
      if is_zero spec.contract_size then err panicked else ok (units_to_lots spec quantity)

  position_lots : InstrumentRegistry D → D → List (Position D) → Result D
  unfolding lots_of
  position_lots instruments total [] = ok total
  position_lots instruments total (p ∷ ps) =
      lots_of instruments p.symbol p.open_quantity >>= λ lots.
      position_lots instruments (add total lots) ps

  with_order : InstrumentRegistry D → D → Option (Order D) → Result D
  unfolding lots_of
  with_order instruments total none = ok total
  with_order instruments total (some o) =
      lots_of instruments o.symbol o.quantity >>= λ lots. ok (add total lots)

  unfoldable pub total_lots : RuleContext D → Result D
  unfolding position_lots with_order is_open
  total_lots ctx =
      position_lots ctx.instruments nought (keep is_open ctx.open_positions) >>= λ total.
      with_order ctx.instruments total ctx.pending_order

  violation_of : Uuid → RuleContext D → ViolationSeverity → Violation D
  violation_of id ctx severity =
      build_violation id "Max Total Lots" ViolationKind.max_lot_size ctx severity

  unfoldable pub evaluate : Option (RuleParams D) → Uuid → RuleContext D → Result (RuleVerdict D)
  unfolding effective_max_lots total_lots violation_of
  evaluate params id ctx = elim (effective_max_lots params ctx.account) [
    | none ↦ ok RuleVerdict.pass
    | some max_lots ↦ total_lots ctx >>= λ total. ok (
        if lt max_lots total
        then RuleVerdict.fail (violation_of id ctx ViolationSeverity.hard)
        else RuleVerdict.pass)
  ]
