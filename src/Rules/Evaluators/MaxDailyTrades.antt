-- ===== src/Rules/Evaluators/MaxDailyTrades.antt =====
-- rules/evaluators/max_daily_trades.rs
use propfirm_engine.Base.{
  ℕ, ◌%◌, Bool, length, Option, none, some, is_some, if◌then◌else◌, ltb, add_u32, u32_mod, Result,
  ok, ◌>>=◌,
}
use propfirm_engine.Decimal.{Decimal}
use propfirm_engine.Core.Ids.{Uuid}
use propfirm_engine.Core.Order.{Order}
use propfirm_engine.Core.Account.{Account}
use propfirm_engine.Core.Violation.{Violation, ViolationSeverity, ViolationKind}
use propfirm_engine.Rules.Verdict.{RuleVerdict}
use propfirm_engine.Rules.Params.{RuleParams, has_value, as_rule_eval, pack_count}
use propfirm_engine.Rules.Context.{RuleContext, build_violation, is_closing}

module _ {D : Type 0} ⦃d : Decimal D⦄ where
  open d use {nought, new, add, sub, mul, div, max, min, abs, lt, le, is_zero, to_u64, to_i64, sqrt}

  unfoldable pub effective_max : Option (RuleParams D) → Account D → Result (Option ℕ)
  unfolding pack_count
  effective_max params a = pack_count params a.plan.max_daily_trades

  unfoldable pub is_enabled : Option (RuleParams D) → Account D → Bool
  is_enabled none a = is_some a.plan.max_daily_trades
  is_enabled (some p) a = has_value p

  violation_of : Uuid → RuleContext D → ViolationSeverity → Violation D
  violation_of id ctx severity =
      build_violation id "Max Daily Trades" ViolationKind.max_daily_trades ctx severity

  -- The number of trades of the day, as a `u32`.
  abbrev pub counted : RuleContext D → ℕ
  counted ctx = length ctx.today_trades % u32_mod

  unfoldable pub judge : Uuid → RuleContext D → ℕ → Option (Order D) → RuleVerdict D
  unfolding violation_of
  judge id ctx most none = RuleVerdict.pass
  judge id ctx most (some order) =
      if is_closing order
      then RuleVerdict.pass
      else if ltb most (add_u32 (counted ctx) 1)
      then RuleVerdict.fail (violation_of id ctx ViolationSeverity.hard)
      else RuleVerdict.pass

  unfoldable pub evaluate : Option (RuleParams D) → Uuid → RuleContext D → Result (RuleVerdict D)
  unfolding effective_max judge
  evaluate params id ctx = as_rule_eval (effective_max params ctx.account) >>= λ limit. elim limit [
    | none ↦ ok RuleVerdict.pass
    | some most ↦ ok (judge id ctx most ctx.pending_order)
  ]
