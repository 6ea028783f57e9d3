-- ===== src/Rules/Evaluators/MinTradingDays.antt =====
-- rules/evaluators/min_trading_days.rs, whose verdict on a number of days
-- min_profitable_days.rs repeats.
use propfirm_engine.Base.{
  ℕ, Bool, false, ◌||◌, Option, none, some, is_some, if◌then◌else◌, ◌==◌, ltb, leb, Result, ok,
  ◌>>=◌,
}
use propfirm_engine.Decimal.{Decimal}
use propfirm_engine.Core.Ids.{Uuid, Timestamp}
use propfirm_engine.Core.Account.{Account}
use propfirm_engine.Core.Violation.{Violation, ViolationSeverity, ViolationKind}
use propfirm_engine.Rules.Verdict.{RuleVerdict}
use propfirm_engine.Rules.Params.{RuleParams, has_value, as_rule_eval, pack_count}
use propfirm_engine.Rules.Context.{RuleContext, build_violation}

is_past : Timestamp → Option Timestamp → Bool
is_past now none = false
is_past now (some deadline) = ltb deadline now

module _ {D : Type 0} ⦃d : Decimal D⦄ where
  open d use {nought, new, add, sub, mul, div, max, min, abs, lt, le, is_zero, to_u64, to_i64, sqrt}

  unfoldable pub effective_days : Option (RuleParams D) → Account D → Result (Option ℕ)
  unfolding pack_count
  effective_days params a = pack_count params (some a.plan.min_trading_days)

  unfoldable pub is_enabled : Option (RuleParams D) → Account D → Bool
  is_enabled none a = ltb 0 a.plan.min_trading_days
  is_enabled (some p) a = has_value p

  -- Qualifying days where the plan sets a threshold for them, else days with a trade.
  unfoldable pub counted_days : Account D → ℕ
  counted_days a =
      if is_some a.plan.qualifying_day_threshold_pct || is_some a.plan.qualifying_day_pnl_band_pct
      then a.qualifying_trading_days_count
      else a.active_trading_days

  -- Both rules, once the required number of days is known.
  unfoldable pub judge_days :
      (ViolationSeverity → Violation D) → RuleContext D → ℕ → ℕ → RuleVerdict D
  unfolding is_past
  judge_days violation ctx required actual =
      if required == 0
      then RuleVerdict.pass
      else if leb required actual
      then RuleVerdict.pass
      else if is_past ctx.server_time ctx.account.deadline
      then RuleVerdict.fail (violation ViolationSeverity.hard)
      else RuleVerdict.warn (violation ViolationSeverity.warning)

  violation_of : Uuid → RuleContext D → ViolationSeverity → Violation D
  violation_of id ctx severity =
      build_violation id "Minimum Trading Days" ViolationKind.min_trading_days ctx severity

  unfoldable pub evaluate : Option (RuleParams D) → Uuid → RuleContext D → Result (RuleVerdict D)
  unfolding effective_days judge_days violation_of counted_days
  evaluate params id ctx = as_rule_eval (effective_days params ctx.account) >>= λ days. elim days [
    | none ↦ ok RuleVerdict.pass
    | some required ↦ ok (judge_days (violation_of id ctx) ctx required (counted_days ctx.account))
  ]
