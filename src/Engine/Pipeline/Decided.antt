-- ===== src/Engine/Pipeline/Decided.antt =====
-- Decisions on concrete accounts.
use propfirm_engine.Base.{
  ◌≡◌, refl, true, false, not, ◌&&◌, [], ◌∷◌, none, Result, ok, err, invalid_state, is_ok, ◌>>=◌,
  map, keep, arith,
}
use propfirm_engine.Decimal.Scaled.{Scaled, scaled_decimal}
use propfirm_engine.Fixtures.{account, money, noon, value, value_lem, violation, long_position}
use propfirm_engine.Core.Account.{Account, emergency_stopped, type_of_phase}
use propfirm_engine.Core.Plan.{ChallengePhase}
use propfirm_engine.Core.Trading.{is_open}
use propfirm_engine.Core.Violation.{ViolationSeverity}
use propfirm_engine.Core.Liquidation.{from_position}
use propfirm_engine.Engine.Decision.{Decision, DecisionKind, DecisionReason}
use propfirm_engine.Engine.State.{clear_breach, emergency_stop, mark_payout_pending}
use propfirm_engine.Engine.Pipeline.Apply.{apply_decision, is_promotable, Outcome}
use propfirm_engine.Engine.Pipeline.Applied.{
  is_ok-apply_decision, clear_breach-apply_decision, clear_breach_after_stop,
  apply_decision_promotes, mark_payout_pending-promoted, instructions-apply_decision, instructions,
  marked,
}

abbrev failing : Decision Scaled
failing = record {
  kind = DecisionKind.fail;
  reason = DecisionReason.hard_violation (violation ViolationSeverity.hard);
  winning_priority = 900;
  all_violations = violation ViolationSeverity.hard ∷ [];
}

abbrev liquidating : Decision Scaled
liquidating = record {
  kind = DecisionKind.liquidate;
  reason = DecisionReason.liquidation_requested (violation ViolationSeverity.liquidate);
  winning_priority = 1000;
  all_violations = violation ViolationSeverity.liquidate ∷ [];
}

abbrev hitting : Decision Scaled
hitting = record {
  kind = DecisionKind.target_hit;
  reason = DecisionReason.target_hit_reached (violation ViolationSeverity.info);
  winning_priority = 500;
  all_violations = violation ViolationSeverity.info ∷ [];
}

-- An account with the days that the plan wants, and the same one in the funded phase.
abbrev seasoned : Account Scaled
seasoned = record account { active_trading_days = 2 }

abbrev seasoned_funded : Account Scaled
seasoned_funded = record seasoned { plan = record account.plan { phase = ChallengePhase.funded } }

is_ok-apply_decision_example :
    is_ok (apply_decision seasoned_funded hitting 9 (noon 11) "rule_engine")
    ≡ not (is_promotable (marked hitting (noon 11) seasoned_funded) && true)
is_ok-apply_decision_example =
    is_ok-apply_decision seasoned_funded hitting 9 (noon 11) "rule_engine"

-- A target hit in the funded phase is refused.
funded_hit_refused :
    is_ok (apply_decision seasoned_funded hitting 9 (noon 11) "rule_engine") ≡ false
unfolding apply_decision propfirm_engine.Engine.State.mark_target_reached
    propfirm_engine.Engine.State.upgrade_phase
funded_hit_refused = refl

clear_breach-apply_decision_example :
    (apply_decision account failing 9 (noon 11) "rule_engine" >>= λ o. clear_breach o.0)
    ≡ ok (record account { status_before_breach = none })
unfolding is_promotable propfirm_engine.Engine.Decision.is_terminating
clear_breach-apply_decision_example =
    clear_breach-apply_decision account failing 9 (noon 11) "rule_engine" refl refl

clear_breach_after_stop_example :
    (apply_decision (emergency_stop account) failing 9 (noon 11) "rule_engine" >>= λ o.
    clear_breach o.0)
    ≡ ok (record account { status = emergency_stopped; status_before_breach = none })
unfolding propfirm_engine.Engine.Decision.is_terminating
clear_breach_after_stop_example =
    clear_breach_after_stop account failing 9 (noon 11) "rule_engine" refl

abbrev promotion : Result (Outcome Scaled)
promotion = apply_decision seasoned hitting 9 (noon 11) "rule_engine"

promotion_accepted : is_ok promotion ≡ true
unfolding apply_decision propfirm_engine.Engine.State.mark_target_reached
    propfirm_engine.Engine.State.upgrade_phase
promotion_accepted = refl

abbrev promoted : Outcome Scaled
promoted = value promotion promotion_accepted

-- A second hit of the target right after the promotion.
abbrev second_hit : Result (Outcome Scaled)
second_hit = apply_decision promoted.0 hitting 9 (noon 11) "rule_engine"

second_hit_accepted : is_ok second_hit ≡ true
unfolding apply_decision propfirm_engine.Engine.State.mark_target_reached
    propfirm_engine.Engine.State.upgrade_phase propfirm_engine.Engine.Decision.account_status_target
second_hit_accepted = refl

abbrev hit_again : Outcome Scaled
hit_again = value second_hit second_hit_accepted

apply_decision_promotes_example :
    (promoted.0.plan.phase ≡ ChallengePhase.phase2)
    × (hit_again.0.plan.phase ≡ promoted.0.plan.phase)
    × (hit_again.0.account_type ≡ type_of_phase hit_again.0.plan.phase)
    × (hit_again.0.balance ≡ money 100000)
    × (hit_again.0.equity ≡ money 100000)
    × (hit_again.0.open_positions ≡ [])
unfolding is_promotable propfirm_engine.Engine.State.mark_target_reached
apply_decision_promotes_example =
    apply_decision_promotes seasoned promoted.0 hit_again.0 hitting hitting 9 9 (noon 11) (noon 11)
      "rule_engine" promoted.1 hit_again.1 refl (omega arith)
      (value_lem promotion promotion_accepted) (value_lem second_hit second_hit_accepted)

mark_payout_pending-promoted_example :
    (apply_decision seasoned hitting 9 (noon 11) "rule_engine" >>= λ o. mark_payout_pending o.0)
    ≡ err invalid_state
unfolding is_promotable propfirm_engine.Engine.State.mark_target_reached
mark_payout_pending-promoted_example =
    mark_payout_pending-promoted seasoned hitting 9 (noon 11) "rule_engine" refl

-- An account with one open position.
abbrev exposed : Account Scaled
exposed = record account { open_positions = long_position ∷ [] }

abbrev liquidation : Result (Outcome Scaled)
liquidation = apply_decision exposed liquidating 9 (noon 11) "rule_engine"

liquidation_accepted : is_ok liquidation ≡ true
unfolding apply_decision
liquidation_accepted = refl

abbrev liquidated : Outcome Scaled
liquidated = value liquidation liquidation_accepted

instructions-apply_decision_example :
    map (λ i. i.positions) (instructions liquidated.1)
    ≡ map from_position (keep is_open (long_position ∷ [])) ∷ []
instructions-apply_decision_example =
    instructions-apply_decision exposed liquidated.0 liquidating 9 (noon 11) "rule_engine"
      liquidated.1 (value_lem liquidation liquidation_accepted)
