-- ===== src/Rules/Verdict.antt =====
-- rules/traits.rs: verdicts and reports. The time and the free-form metadata of a report are left
-- out.
use propfirm_engine.Base.{ℕ, String, Bool, true, false, Option, none, some, Result, ok, err}
use propfirm_engine.Core.Violation.{Violation}

pub data EvaluationScope : Type 0 where
  pre_trade post_trade on_tick periodic on_demand : EvaluationScope

pub data RuleVerdict (D : Type 0) : Type 0 where
  pass : RuleVerdict D
  warn fail soft_fail liquidate target_hit : Violation D → RuleVerdict D
  emergency early_warning gap_flagged : Violation D → RuleVerdict D
  skip : RuleVerdict D

pub record RuleReport (D : Type 0) : Type 0 where
  pub rule_name : String
  pub verdict : RuleVerdict D
  pub scope : EvaluationScope
  pub priority : ℕ

unfoldable pub is_terminating : {D : Type 0} → RuleVerdict D → Bool
is_terminating (fail _) = true
is_terminating (liquidate _) = true
is_terminating (emergency _) = true
is_terminating _ = false

unfoldable pub violation : {D : Type 0} → RuleVerdict D → Option (Violation D)
violation pass = none
violation skip = none
violation (warn v) = some v
violation (fail v) = some v
violation (soft_fail v) = some v
violation (liquidate v) = some v
violation (target_hit v) = some v
violation (emergency v) = some v
violation (early_warning v) = some v
violation (gap_flagged v) = some v

-- Whether an evaluation gave a verdict that terminates the account.
abbrev pub terminates : {D : Type 0} → Result (RuleVerdict D) → Bool
terminates (ok v) = is_terminating v
terminates (err _) = false
