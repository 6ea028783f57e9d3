-- ===== src/Rules/Evaluators/TimeLimit.antt =====
-- rules/evaluators/time_limit.rs. The wall clock, which stands in for a start that is missing, is an
-- argument.
use propfirm_engine.Base.{
  ℕ, ◌+◌, ◌*◌, Bool, false, not, ◌||◌, Option, none, some, is_some, unwrap_or, if◌then◌else◌, ◌==◌,
  ltb, Result, ok, invalid_config, invalid_state, ok_or, ◌>>=◌,
}
use propfirm_engine.Base.Int.{pos_part}
use propfirm_engine.Decimal.{Decimal}
use propfirm_engine.Core.Ids.{Uuid, Timestamp, nanos_per_second, nanos_per_day, whole, shift}
use propfirm_engine.Core.Account.{Account}
use propfirm_engine.Core.Violation.{Violation, ViolationSeverity, ViolationKind}
use propfirm_engine.Rules.Verdict.{RuleVerdict}
use propfirm_engine.Rules.Params.{RuleParams}
use propfirm_engine.Rules.Context.{RuleContext, build_violation}

-- More than nine tenths of the time are over. The code divides the seconds as floating-point
-- numbers, which gives the same answer for fewer than 10 ^ 14 seconds.
near_end : Timestamp → Timestamp → Option Timestamp → Bool
near_end now deadline none = false
near_end now deadline (some start) =
    let total = pos_part (whole nanos_per_second deadline start) in
    let elapsed = pos_part (whole nanos_per_second now start) in
    ltb (9 * (if total == 0 then 1 else total)) (10 * elapsed)

module _ {D : Type 0} ⦃d : Decimal D⦄ where
  open d use {nought, new, add, sub, mul, div, max, min, abs, lt, le, is_zero, to_u64, to_i64, sqrt}

  -- The limit of the plan, when no deadline is set.
  plan_deadline : Account D → Option Timestamp → Option ℕ → Result (Option Timestamp)
  plan_deadline a (some deadline) limit_days = ok (some deadline)
  plan_deadline a none none = ok none
  plan_deadline a none (some days) =
      ok_or a.started_at invalid_state >>= λ start. ok (some (start + days * nanos_per_day))

  pack_deadline : Account D → Timestamp → Option D → Result (Option Timestamp)
  unfolding plan_deadline
  pack_deadline a now none = plan_deadline a a.deadline a.plan.time_limit_days
  pack_deadline a now (some days) = ok_or (to_i64 days) invalid_config >>= λ n.
      ok (some (shift (unwrap_or a.started_at now) n nanos_per_day))

  unfoldable pub effective_deadline :
      Option (RuleParams D) → Account D → Timestamp → Result (Option Timestamp)
  unfolding plan_deadline pack_deadline
  effective_deadline none a now = plan_deadline a a.deadline a.plan.time_limit_days
  effective_deadline (some p) a now = if not p.enabled then ok none else pack_deadline a now p.value

  unfoldable pub is_enabled : Option (RuleParams D) → Account D → Bool
  is_enabled none a = is_some a.plan.time_limit_days || is_some a.deadline
  is_enabled (some p) a = p.enabled

  violation_of : Uuid → RuleContext D → ViolationSeverity → Violation D
  violation_of id ctx severity =
      build_violation id "Time Limit" ViolationKind.time_limit ctx severity

  judge : Uuid → RuleContext D → Timestamp → RuleVerdict D
  unfolding violation_of near_end
  judge id ctx deadline =
      let now = ctx.server_time in
      if ltb deadline now
      then RuleVerdict.fail (violation_of id ctx ViolationSeverity.hard)
      else if near_end now deadline ctx.account.started_at
      then RuleVerdict.warn (violation_of id ctx ViolationSeverity.warning)
      else RuleVerdict.pass

  unfoldable pub evaluate :
      Timestamp → Option (RuleParams D) → Uuid → RuleContext D → Result (RuleVerdict D)
  unfolding effective_deadline judge
  evaluate now params id ctx = effective_deadline params ctx.account now >>= λ deadline.
      elim deadline [ none ↦ ok RuleVerdict.pass | some at ↦ ok (judge id ctx at) ]
