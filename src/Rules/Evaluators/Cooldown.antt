-- ===== src/Rules/Evaluators/Cooldown.antt =====
-- rules/evaluators/cooldown.rs
use propfirm_engine.Base.{
  ℕ, ◌^◌, Bool, List, [], ◌∷◌, Option, none, some, if◌then◌else◌, ◌==◌, ltb, Result, ok,
  invalid_config, ok_or, ◌>>=◌,
}
use propfirm_engine.Base.Int.{ℤ, pos, sub_ℕ, ltb_ℤ}
use propfirm_engine.Decimal.{Decimal}
use propfirm_engine.Core.Ids.{Uuid, nanos_per_second, whole}
use propfirm_engine.Core.Trading.{Trade}
use propfirm_engine.Core.Order.{Order}
use propfirm_engine.Core.Account.{Account}
use propfirm_engine.Core.Violation.{Violation, ViolationSeverity, ViolationKind}
use propfirm_engine.Rules.Verdict.{RuleVerdict}
use propfirm_engine.Rules.Params.{RuleParams, enabled_value, has_value, as_rule_eval}
use propfirm_engine.Rules.Context.{RuleContext, build_violation}

-- `cooldown as i64`, which wraps.
as_i64 : ℕ → ℤ
as_i64 n = if ltb n (2 ^ 63) then pos n else sub_ℕ n (2 ^ 64)

module _ {D : Type 0} ⦃d : Decimal D⦄ where
  open d use {nought, new, add, sub, mul, div, max, min, abs, lt, le, is_zero, to_u64, to_i64, sqrt}

  pack_seconds : Option D → Result ℕ
  pack_seconds none = ok 0
  pack_seconds (some v) = ok_or (to_u64 v) invalid_config

  unfoldable pub effective_seconds : Option (RuleParams D) → Account D → Result ℕ
  unfolding pack_seconds
  effective_seconds none a = ok a.plan.cooldown_seconds
  effective_seconds (some p) a = pack_seconds (enabled_value p)

  unfoldable pub is_enabled : Option (RuleParams D) → Account D → Bool
  is_enabled none a = ltb 0 a.plan.cooldown_seconds
  is_enabled (some p) a = has_value p

  last : List (Trade D) → Option (Trade D)
  last [] = none
  last (t ∷ []) = some t
  last (t ∷ u ∷ ts) = last (u ∷ ts)

  violation_of : Uuid → RuleContext D → ViolationSeverity → Violation D
  violation_of id ctx severity = build_violation id "Cooldown" ViolationKind.cooldown ctx severity

  judge : Uuid → RuleContext D → ℕ → Option (Order D) → Option (Trade D) → RuleVerdict D
  unfolding violation_of as_i64
  judge id ctx cooldown none last_trade = RuleVerdict.pass
  judge id ctx cooldown (some order) none = RuleVerdict.pass
  judge id ctx cooldown (some order) (some last_trade) =
      if ltb_ℤ (whole nanos_per_second order.submitted_at last_trade.executed_at) (as_i64 cooldown)
      then RuleVerdict.warn (violation_of id ctx ViolationSeverity.warning)
      else RuleVerdict.pass

  unfoldable pub evaluate : Option (RuleParams D) → Uuid → RuleContext D → Result (RuleVerdict D)
  unfolding effective_seconds judge last
  evaluate params id ctx = as_rule_eval (effective_seconds params ctx.account) >>= λ cooldown. ok (
      if cooldown == 0
      then RuleVerdict.pass
      else judge id ctx cooldown ctx.pending_order (last ctx.today_trades))
