-- ===== src/Rules/Evaluators/CrossAccountHedging.antt =====
-- rules/evaluators/cross_account_hedging.rs
use propfirm_engine.Base.{
  Bool, true, false, ◌&&◌, any, Option, if◌then◌else◌, same_string, Result, ok,
}
use propfirm_engine.Core.Ids.{Uuid}
use propfirm_engine.Core.Trading.{Trade, Position, PositionSide, from_order, long, short}
use propfirm_engine.Core.Account.{Account}
use propfirm_engine.Core.Violation.{Violation, ViolationSeverity, ViolationKind}
use propfirm_engine.Rules.Verdict.{RuleVerdict}
use propfirm_engine.Rules.Params.{RuleParams, is_disabled}
use propfirm_engine.Rules.Context.{RuleContext, build_violation}

abbrev other_side : PositionSide → PositionSide → Bool
other_side long short = true
other_side short long = true
other_side _ _ = false

module _ {D : Type 0} where
  unfoldable pub is_enabled : Option (RuleParams D) → Account D → Bool
  is_enabled params a =
      if is_disabled params then false else a.plan.cross_account_hedging_prohibited

  -- Whether a trade of another account hedges the position.
  unfoldable pub hedged_by : Position D → Trade D → Bool
  hedged_by p t = same_string p.symbol t.symbol && other_side p.side (from_order t.side)

  violation_of : Uuid → RuleContext D → ViolationSeverity → Violation D
  violation_of id ctx severity =
      build_violation id "Cross-Account Hedging" ViolationKind.cross_account_hedging ctx severity

  unfoldable pub evaluate : Option (RuleParams D) → Uuid → RuleContext D → Result (RuleVerdict D)
  unfolding hedged_by violation_of
  evaluate params id ctx =
      if any (λ p. any (hedged_by p) ctx.cross_reference_trades) ctx.account.open_positions
      then ok (RuleVerdict.warn (violation_of id ctx ViolationSeverity.warning))
      else ok RuleVerdict.pass
