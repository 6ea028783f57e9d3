-- ===== src/Engine/Decision/Examples.antt =====
-- Decisions on concrete reports.
use mathlib.Core.List.{Perm, Permᴰ}
use propfirm_engine.Base.{
  ℕ, ◌≤◌, ◌≡◌, refl, true, any, List, [], ◌∷◌, ◌++◌, map, some, All, IsOneOf, arith,
}
use propfirm_engine.Decimal.Scaled.{Scaled}
use propfirm_engine.Fixtures.{violation}
use propfirm_engine.Core.Violation.{warning, hard, liquidate}
use propfirm_engine.Rules.Verdict
use propfirm_engine.Rules.Verdict.{RuleReport, RuleVerdict, on_tick}
use propfirm_engine.Engine.Decision.{
  DecisionKind, from_reports, intrinsic_weight, is_terminating, pick_winner,
}
use propfirm_engine.Engine.Decision.Winner.{kind_of, asks}
use propfirm_engine.Engine.Decision.Order.{
  bid, is_terminating-from_reports, from_reports_wins, from_reports-perm, pick_winner_last,
}

abbrev report : ℕ → RuleVerdict Scaled → RuleReport Scaled
report priority verdict = record {
  rule_name = "rule";
  verdict = verdict;
  scope = on_tick;
  priority = priority;
}

-- A warning of high priority, a failure, and a liquidation of low priority.
abbrev warns : RuleReport Scaled
warns = report 5000 (RuleVerdict.warn (violation warning))

abbrev fails : RuleReport Scaled
fails = report 900 (RuleVerdict.fail (violation hard))

abbrev liquidates : RuleReport Scaled
liquidates = report 10 (RuleVerdict.liquidate (violation liquidate))

abbrev reports : List (RuleReport Scaled)
reports = warns ∷ fails ∷ liquidates ∷ []

-- The liquidation wins, whatever the priorities of the other two.
liquidation_wins : (from_reports reports).kind ≡ DecisionKind.liquidate
unfolding from_reports pick_winner propfirm_engine.Engine.Decision.sort_report
liquidation_wins = refl

is_terminating-from_reports_example :
    is_terminating (from_reports reports).kind ≡ any (λ r. Verdict.is_terminating r.verdict) reports
is_terminating-from_reports_example = is_terminating-from_reports reports

from_reports_wins_example :
    let d = from_reports reports in
    IsOneOf (d.kind, d.winning_priority) ((DecisionKind.pass, 0) ∷ map bid reports)
    × All (λ r. intrinsic_weight (kind_of r.verdict) ≤ intrinsic_weight d.kind) reports
    × All (λ r. asks d.kind r.verdict ≡ true → r.priority ≤ d.winning_priority) reports
from_reports_wins_example = from_reports_wins reports

swapped : Perm (warns ∷ fails ∷ []) (fails ∷ warns ∷ [])
swapped = ∣ Permᴰ.swap refl refl ∣₁

from_reports-perm_example :
    ((from_reports (warns ∷ fails ∷ [])).kind ≡ (from_reports (fails ∷ warns ∷ [])).kind)
    × ((from_reports (warns ∷ fails ∷ [])).winning_priority
        ≡ (from_reports (fails ∷ warns ∷ [])).winning_priority)
from_reports-perm_example = from_reports-perm (warns ∷ fails ∷ []) (fails ∷ warns ∷ []) swapped

pick_winner_last_example :
    pick_winner
      (((900, violation hard) ∷ []) ++ (900, violation liquidate) ∷ (500, violation hard) ∷ [])
    ≡ some (900, violation liquidate)
pick_winner_last_example =
    pick_winner_last ((900, violation hard) ∷ []) ((500, violation hard) ∷ [])
      (900, violation liquidate) (omega arith, tt) (omega arith, tt)
