-- ===== src/Rules/Evaluators/Inactivity.antt =====
-- rules/evaluators/inactivity.rs
use propfirm_engine.Base.{
  ℕ, ◌-◌, Bool, Option, none, some, is_some, if◌then◌else◌, ◌==◌, Result, ok, invalid_config, ok_or,
  ◌>>=◌,
}
use propfirm_engine.Base.Int.{pos, leb_ℤ}
use propfirm_engine.Decimal.{Decimal}
use propfirm_engine.Core.Ids.{Uuid, Timestamp, nanos_per_day, whole}
use propfirm_engine.Core.Account.{Account}
use propfirm_engine.Core.Violation.{Violation, ViolationSeverity, ViolationKind}
use propfirm_engine.Rules.Verdict.{RuleVerdict}
use propfirm_engine.Rules.Params.{RuleParams, effective_count}
use propfirm_engine.Rules.Context.{RuleContext, build_violation}

pack_days : Option ℕ → Result (Option ℕ)
pack_days days = ok_or days invalid_config >>= λ n. ok (some n)

-- Whole days since an instant, at least as many as given.
idle_for : Timestamp → Timestamp → ℕ → Bool
idle_for now since days = leb_ℤ (pos days) (whole nanos_per_day now since)

module _ {D : Type 0} ⦃d : Decimal D⦄ where
  open d use {nought, new, add, sub, mul, div, max, min, abs, lt, le, is_zero, to_u64, to_i64, sqrt}

  unfoldable pub effective_days : Option (RuleParams D) → Account D → Result (Option ℕ)
  unfolding pack_days effective_count
  effective_days none a = ok a.plan.inactivity_days
  effective_days (some p) a = effective_count p >>= λ v. pack_days (d.to_u32 v)

  unfoldable pub is_enabled : Option (RuleParams D) → Account D → Bool
  is_enabled none a = is_some a.plan.inactivity_days
  is_enabled (some p) a = p.enabled

  violation_of : Uuid → RuleContext D → ViolationSeverity → Violation D
  violation_of id ctx severity =
      build_violation id "Inactivity Termination" ViolationKind.custom ctx severity

  -- An account that never traded counts from its start and gets no warning.
  judge : Uuid → RuleContext D → ℕ → Option Timestamp → Option Timestamp → RuleVerdict D
  unfolding violation_of idle_for
  judge id ctx days none none = RuleVerdict.pass
  judge id ctx days none (some started) =
      if idle_for ctx.server_time started days
      then RuleVerdict.fail (violation_of id ctx ViolationSeverity.hard)
      else RuleVerdict.pass
  judge id ctx days (some last_activity) started =
      if idle_for ctx.server_time last_activity days
      then RuleVerdict.fail (violation_of id ctx ViolationSeverity.hard)
      else if idle_for ctx.server_time last_activity (days - 1)
      then RuleVerdict.warn (violation_of id ctx ViolationSeverity.warning)
      else RuleVerdict.pass

  unfoldable pub evaluate : Option (RuleParams D) → Uuid → RuleContext D → Result (RuleVerdict D)
  unfolding effective_days judge
  evaluate params id ctx = effective_days params ctx.account >>= λ limit. elim limit [
    | none ↦ ok RuleVerdict.pass
    | some days ↦ ok (
        if days == 0
        then RuleVerdict.pass
        else judge id ctx days ctx.account.last_trade_at ctx.account.started_at)
  ]
