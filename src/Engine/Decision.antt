-- ===== src/Engine/Decision.antt =====
-- engine/decision.rs: one decision from the reports of all rules.
pub mod Winner
pub mod Order
mod Examples
use propfirm_engine.Base.{
  ℕ, Bool, true, false, List, [], ◌∷◌, ◌++◌, Option, none, some, map, ltb, if◌then◌else◌,
}
use propfirm_engine.Core.Violation.{Violation}
use propfirm_engine.Core.Account.{AccountStatus, failed, emergency_stopped}
use propfirm_engine.Rules.Verdict.{RuleVerdict, RuleReport}

pub data DecisionKind : Type 0 where
  pass warn early_warning target_hit fail soft_fail gap_flagged liquidate emergency : DecisionKind

unfoldable pub is_terminating : DecisionKind → Bool
is_terminating DecisionKind.fail = true
is_terminating DecisionKind.liquidate = true
is_terminating DecisionKind.emergency = true
is_terminating _ = false

unfoldable pub intrinsic_weight : DecisionKind → ℕ
intrinsic_weight DecisionKind.emergency = 10_000
intrinsic_weight DecisionKind.liquidate = 1_000
intrinsic_weight DecisionKind.fail = 900
intrinsic_weight DecisionKind.soft_fail = 850
intrinsic_weight DecisionKind.gap_flagged = 800
intrinsic_weight DecisionKind.target_hit = 100
intrinsic_weight DecisionKind.early_warning = 50
intrinsic_weight DecisionKind.warn = 40
intrinsic_weight DecisionKind.pass = 0

pub data DecisionReason (D : Type 0) : Type 0 where
  all_rules_passed : DecisionReason D
  warnings early_warnings : List (Violation D) → DecisionReason D
  target_hit_reached hard_violation soft_fail_reached : Violation D → DecisionReason D
  liquidation_requested emergency_stop gap_flagged_reached : Violation D → DecisionReason D

pub record Decision (D : Type 0) : Type 0 where
  pub kind : DecisionKind
  pub reason : DecisionReason D
  pub winning_priority : ℕ
  pub all_violations : List (Violation D)

abbrev pub Entry : Type 0 → Type 0
Entry D = ℕ × Violation D

-- The vectors that the loop of `from_reports` fills.
pub record Buckets (D : Type 0) : Type 0 where
  pub all_violations : List (Violation D)
  pub emergencies : List (Entry D)
  pub liquidates : List (Entry D)
  pub fails : List (Entry D)
  pub soft_fails : List (Entry D)
  pub target_hits : List (Entry D)
  pub early_warnings : List (Entry D)
  pub gap_flagged : List (Entry D)
  pub warnings : List (Entry D)

module _ {D : Type 0} where
  abbrev pub no_buckets : Buckets D
  no_buckets = record {
    all_violations = [];
    emergencies = [];
    liquidates = [];
    fails = [];
    soft_fails = [];
    target_hits = [];
    early_warnings = [];
    gap_flagged = [];
    warnings = [];
  }

  -- One round of the loop; `push` adds at the end.
  unfoldable pub sort_report : Buckets D → ℕ → RuleVerdict D → Buckets D
  sort_report b p (RuleVerdict.emergency v) = record b {
    all_violations = b.all_violations ++ v ∷ [];
    emergencies = b.emergencies ++ (p, v) ∷ [];
  }
  sort_report b p (RuleVerdict.liquidate v) = record b {
    all_violations = b.all_violations ++ v ∷ [];
    liquidates = b.liquidates ++ (p, v) ∷ [];
  }
  sort_report b p (RuleVerdict.fail v) = record b {
    all_violations = b.all_violations ++ v ∷ [];
    fails = b.fails ++ (p, v) ∷ [];
  }
  sort_report b p (RuleVerdict.soft_fail v) = record b {
    all_violations = b.all_violations ++ v ∷ [];
    soft_fails = b.soft_fails ++ (p, v) ∷ [];
  }
  sort_report b p (RuleVerdict.target_hit v) = record b {
    all_violations = b.all_violations ++ v ∷ [];
    target_hits = b.target_hits ++ (p, v) ∷ [];
  }
  sort_report b p (RuleVerdict.early_warning v) = record b {
    all_violations = b.all_violations ++ v ∷ [];
    early_warnings = b.early_warnings ++ (p, v) ∷ [];
  }
  sort_report b p (RuleVerdict.gap_flagged v) = record b {
    all_violations = b.all_violations ++ v ∷ [];
    gap_flagged = b.gap_flagged ++ (p, v) ∷ [];
  }
  sort_report b p (RuleVerdict.warn v) = record b {
    all_violations = b.all_violations ++ v ∷ [];
    warnings = b.warnings ++ (p, v) ∷ [];
  }
  sort_report b p RuleVerdict.pass = b
  sort_report b p RuleVerdict.skip = b

  unfoldable pub sort_reports : Buckets D → List (RuleReport D) → Buckets D
  sort_reports b [] = b
  sort_reports b (r ∷ rs) = sort_reports (sort_report b r.priority r.verdict) rs

  -- `Iterator::max_by` on the priorities: of several greatest entries it returns the last.
  pub max_from : Entry D → List (Entry D) → Entry D
  max_from best [] = best
  max_from best (x ∷ xs) = max_from (if ltb x.0 best.0 then best else x) xs

  unfoldable pub pick_winner : List (Entry D) → Option (Entry D)
  unfolding max_from
  pick_winner [] = none
  pick_winner (x ∷ xs) = some (max_from x xs)

  abbrev decided :
      DecisionKind → (Violation D → DecisionReason D) → List (Violation D) → Entry D → Decision D
  decided kind reason all (p, v) = record {
    kind = kind;
    reason = reason v;
    winning_priority = p;
    all_violations = all;
  }

  abbrev nothing_decided : List (Violation D) → Decision D
  nothing_decided all = record {
    kind = DecisionKind.pass;
    reason = all_rules_passed;
    winning_priority = 0;
    all_violations = all;
  }

  -- `if let Some((p, v)) = pick_winner(&list) { return … }`
  abbrev or_else : Option (Entry D) → (Entry D → Decision D) → Decision D → Decision D
  or_else none f rest = rest
  or_else (some e) f rest = f e

  abbrev violations_of : List (Entry D) → List (Violation D)
  violations_of = map (λ e. e.1)

  -- The selection after the loop. A vector that is not empty has a winner.
  unfoldable pub decide_buckets : Buckets D → Decision D
  decide_buckets b =
      let all = b.all_violations in
      or_else (pick_winner b.emergencies) (decided DecisionKind.emergency emergency_stop all) (
        or_else (pick_winner b.liquidates)
          (decided DecisionKind.liquidate liquidation_requested all)
          (or_else (pick_winner b.fails) (decided DecisionKind.fail hard_violation all) (
            or_else (pick_winner b.soft_fails)
              (decided DecisionKind.soft_fail soft_fail_reached all)
              (or_else (pick_winner b.gap_flagged)
                (decided DecisionKind.gap_flagged gap_flagged_reached all)
                (or_else (pick_winner b.target_hits)
                  (decided DecisionKind.target_hit target_hit_reached all)
                  (or_else (pick_winner b.early_warnings)
                    (decided DecisionKind.early_warning
                      (λ _. early_warnings (violations_of b.early_warnings)) all)
                    (or_else (pick_winner b.warnings)
                      (decided DecisionKind.warn (λ _. warnings (violations_of b.warnings)) all)
                      (nothing_decided all))))))))

  unfoldable pub from_reports : List (RuleReport D) → Decision D
  unfolding sort_reports decide_buckets
  from_reports rs = decide_buckets (sort_reports no_buckets rs)

abbrev status_target : DecisionKind → Option AccountStatus
status_target DecisionKind.fail = some failed
status_target DecisionKind.liquidate = some failed
status_target DecisionKind.emergency = some emergency_stopped
status_target _ = none

unfoldable pub account_status_target : {D : Type 0} → Decision D → Option AccountStatus
account_status_target decision = status_target decision.kind
