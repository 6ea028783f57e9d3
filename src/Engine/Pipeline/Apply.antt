-- ===== src/Engine/Pipeline/Apply.antt =====
-- engine/pipeline.rs, `apply_decision`: what a decision does to the account.
use propfirm_engine.Base.{
  Bool, true, false, ◌&&◌, List, [], ◌∷◌, ◌++◌, Option, none, some, is_some, leb, if◌then◌else◌,
  Result, ok, first, find, String, ◌>>=◌,
}
use propfirm_engine.Decimal.{Decimal}
use propfirm_engine.Core.Ids.{Uuid, Timestamp}
use propfirm_engine.Core.Violation.{Violation, ViolationKind, custom, severity_rank}
use propfirm_engine.Core.Plan.{ChallengePhase, phase1, phase2}
use propfirm_engine.Core.Account.{
  Account, AccountStatus, active, target_hit_pending, passed, failed, emergency_stopped,
}
use propfirm_engine.Core.Liquidation
use propfirm_engine.Core.Liquidation.{LiquidationReason, rule_breach}
use propfirm_engine.Core.Events.{
  DomainEvent, account_status_changed, plan_upgraded, liquidation_requested, event,
}
use propfirm_engine.Engine.State.{mark_target_reached, upgrade_phase}
use propfirm_engine.Engine.Decision.{Decision, DecisionKind, account_status_target}

abbrev pub next_phase_for : ChallengePhase → ChallengePhase
next_phase_for phase1 = phase2
next_phase_for phase2 = ChallengePhase.funded
next_phase_for ChallengePhase.funded = phase1

abbrev is_target_hit : DecisionKind → Bool
is_target_hit DecisionKind.target_hit = true
is_target_hit _ = false

abbrev is_pending_target : AccountStatus → Bool
is_pending_target target_hit_pending = true
is_pending_target _ = false

abbrev is_breach_status : AccountStatus → Bool
is_breach_status failed = true
is_breach_status emergency_stopped = true
is_breach_status _ = false

-- An account and the events so far.
abbrev pub Outcome : Type 0 → Type 0
Outcome D = Account D × List (DomainEvent D)

module _ {D : Type 0} where
  abbrev emit : Account D → Timestamp → AccountStatus → AccountStatus → DomainEvent D
  emit a now from to = event a.id (account_status_changed from to) now

  -- The first block: a decision that the target is hit.
  unfoldable pub record_target : Decision D → Timestamp → Account D → Outcome D
  record_target decision now a =
      if is_target_hit decision.kind
      then (mark_target_reached a now, emit a now a.status target_hit_pending ∷ [])
      else (a, [])

  -- `or_else(first)` on the violations of at least the severity `Liquidate`.
  breach_kind : List (Violation D) → ViolationKind
  breach_kind vs = elim (find (λ v. leb 3 (severity_rank v.severity)) vs) [
    | some v ↦ v.kind
    | none ↦ elim (first vs) [ none ↦ custom | some v ↦ v.kind ]
  ]

  -- The instruction that a decision calls for, if it closes positions.
  reason_of : Decision D → Option LiquidationReason
  unfolding breach_kind
  reason_of decision = elim decision.kind [
    | DecisionKind.liquidate ↦ some (rule_breach (breach_kind decision.all_violations))
    | DecisionKind.emergency ↦ some LiquidationReason.emergency_stop
    | _ ↦ none
  ]

module _ {D : Type 0} ⦃d : Decimal D⦄ where
  open d use {nought}

  -- Whether the target is on record and enough days have been traded.
  unfoldable pub is_promotable : Account D → Bool
  is_promotable a =
      is_some a.target_reached_at
      && (is_pending_target a.status && leb a.plan.min_trading_days a.active_trading_days)

  -- The resets of a promoted account.
  unfoldable pub reset_for_phase : Account D → Account D
  reset_for_phase a = record a {
    status = active;
    target_reached_at = none;
    target_reached_on_day = none;
    active_trading_days = 0;
    trading_day_index = 0;
    day_counted_today = false;
    today_realized_pnl = nought;
    largest_day_profit = nought;
    largest_day_loss = nought;
    sum_positive_days_profit = nought;
    day_start_balance = a.balance;
    day_start_equity = a.equity;
    current_trading_day_start = none;
    peak_equity = a.equity;
    peak_balance = a.balance;
  }

  -- The second block: the promotion to the next phase.
  unfoldable pub promote : Timestamp → Account D → Result (Outcome D)
  unfolding is_promotable reset_for_phase
  promote now a =
      if is_promotable a
      then (let from_phase = a.plan.phase in
          let next_phase = next_phase_for from_phase in
          upgrade_phase (record a { status = passed }) next_phase >>= λ b. ok (
            reset_for_phase b,
            emit a now a.status passed ∷ event a.id (plan_upgraded from_phase next_phase) now ∷ [],
          ))
      else ok (a, [])

  liquidation_events : Decision D → Uuid → Timestamp → String → Account D → List (DomainEvent D)
  unfolding reason_of
  liquidation_events decision fresh now actor_id a = elim (reason_of decision) [
    | none ↦ []
    | some reason ↦
        event a.id
          (liquidation_requested (
            Liquidation.new fresh a.id a.tenant_id a.open_positions reason
              (elim (first decision.all_violations) [ none ↦ none | some v ↦ some v.id ]) actor_id
              now))
          now
        ∷ []
  ]

  -- The third block: the status that a terminating decision sets.
  unfoldable pub terminate : Decision D → Uuid → Timestamp → String → Account D → Outcome D
  unfolding liquidation_events
  terminate decision fresh now actor_id a = elim (account_status_target decision) [
    | none ↦ (a, [])
    | some target ↦ (
      record a {
        status_before_breach =
            if is_breach_status target then some a.status else a.status_before_breach;
        status = target;
      },
      emit a now a.status target ∷ liquidation_events decision fresh now actor_id a,
    )
  ]

  -- `fresh` is the id of the liquidation instruction.
  unfoldable pub apply_decision :
      Account D → Decision D → Uuid → Timestamp → String → Result (Outcome D)
  unfolding record_target promote terminate
  apply_decision a decision fresh now actor_id =
      let (marked, target_events) = record_target decision now a in
      promote now marked >>= λ (promoted, phase_events).
      let (ended, end_events) = terminate decision fresh now actor_id promoted in
      ok (ended, target_events ++ phase_events ++ end_events)
