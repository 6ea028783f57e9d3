-- ===== src/Rules/Evaluators/LowcapExposure.antt =====
-- rules/evaluators/lowcap_exposure.rs
use propfirm_engine.Base.{
  Bool, false, List, [], ◌∷◌, Option, none, some, is_some, if◌then◌else◌, Result, ok,
}
use propfirm_engine.Decimal.{Decimal}
use propfirm_engine.Core.Ids.{Uuid}
use propfirm_engine.Core.Trading.{Position}
use propfirm_engine.Core.Instrument.{InstrumentRegistry, get}
use propfirm_engine.Core.Account.{Account}
use propfirm_engine.Core.Violation.{Violation, ViolationSeverity, ViolationKind}
use propfirm_engine.Rules.Verdict.{RuleVerdict}
use propfirm_engine.Rules.Params.{RuleParams, is_disabled}
use propfirm_engine.Rules.Context.{RuleContext, build_violation}

module _ {D : Type 0} ⦃d : Decimal D⦄ where
  open d use {nought, new, add, sub, mul, div, max, min, abs, lt, le, is_zero, to_u64, to_i64, sqrt}

  unfoldable pub is_enabled : Option (RuleParams D) → Account D → Bool
  is_enabled params a =
      if is_disabled params then false else is_some a.plan.lowcap_exposure_limit_pct

  -- The value at entry of what was opened in assets of low capitalization.
  unfoldable pub lowcap_notional : InstrumentRegistry D → D → List (Position D) → D
  unfolding get
  lowcap_notional instruments total [] = total
  lowcap_notional instruments total (p ∷ ps) =
      let spec = get instruments p.symbol in
      lowcap_notional instruments
        (if spec.is_lowcap
          then add total (mul (mul p.opened_quantity spec.contract_size) p.avg_entry_price)
          else total)
        ps

  violation_of : Uuid → RuleContext D → ViolationSeverity → Violation D
  violation_of id ctx severity =
      build_violation id "Low-Capitalisation Asset Exposure" ViolationKind.lowcap_exposure ctx
        severity

  unfoldable pub evaluate : Option (RuleParams D) → Uuid → RuleContext D → Result (RuleVerdict D)
  unfolding lowcap_notional violation_of
  evaluate params id ctx = elim ctx.account.plan.lowcap_exposure_limit_pct [
    | none ↦ ok RuleVerdict.pass
    | some limit_pct ↦
        (let exposure = lowcap_notional ctx.instruments nought ctx.account.open_positions in
          let balance = ctx.account.balance in
          if le balance nought
          then ok RuleVerdict.pass
          else if lt (mul limit_pct balance) exposure
          then ok (RuleVerdict.warn (violation_of id ctx ViolationSeverity.warning))
          else ok RuleVerdict.pass)
  ]
