-- ===== src/Engine/Pipeline/Applied.antt =====
-- What a decision leaves behind: failures, promotions, overrides and liquidations.
use propfirm_engine.Core.Liquidation
use propfirm_engine.Base.{
  bind-ok, ap, sym, ◌∙◌, [], ◌>>=◌, invalid_state, ◌≡◌, Bool, true, false, not, ◌&&◌, List, [], ◌∷◌,
  none, arith, ◌<◌, if◌then◌else◌, ok, err, is_ok, String, map, keep,
}
use propfirm_engine.Decimal.{Decimal}
use propfirm_engine.Core.Ids.{Uuid, Timestamp}
use propfirm_engine.Core.Plan.{ChallengePhase}
use propfirm_engine.Core.Trading.{is_open}
use propfirm_engine.Core.Account.{
  Account, AccountStatus, failed, emergency_stopped, type_of_phase, is_breach_terminal,
}
use propfirm_engine.Core.Events.{DomainEvent, liquidation_requested}
use propfirm_engine.Core.Liquidation.{LiquidationInstruction, from_position}
use propfirm_engine.Engine.State.{
  mark_target_reached, upgrade_phase, clear_breach, emergency_stop, mark_payout_pending,
}
use propfirm_engine.Engine.Decision.{Decision, DecisionKind, account_status_target, is_terminating}
use propfirm_engine.Engine.Pipeline.Apply.{
  record_target, promote, terminate, apply_decision, is_promotable, next_phase_for, reset_for_phase,
}

abbrev pub is_target_hit : DecisionKind → Bool
is_target_hit DecisionKind.target_hit = true
is_target_hit _ = false

abbrev pub is_funded_phase : ChallengePhase → Bool
is_funded_phase ChallengePhase.funded = true
is_funded_phase _ = false

abbrev pub closes_positions : DecisionKind → Bool
closes_positions DecisionKind.liquidate = true
closes_positions DecisionKind.emergency = true
closes_positions _ = false

-- The status of a stopped account after a decision of this kind.
abbrev pub stop_status : DecisionKind → AccountStatus
stop_status DecisionKind.fail = failed
stop_status DecisionKind.liquidate = failed
stop_status _ = emergency_stopped

module _ {D : Type 0} ⦃d : Decimal D⦄ where
  -- The account once a target hit is on record.
  abbrev pub marked : Decision D → Timestamp → Account D → Account D
  marked decision now a = if is_target_hit decision.kind then mark_target_reached a now else a

  -- A decision cannot be applied exactly when it comes to a promotion out of the funded phase.
  pub is_ok-apply_decision :
      (a : Account D) (decision : Decision D) (fresh : Uuid) (now : Timestamp) (actor_id : String)
      → is_ok (apply_decision a decision fresh now actor_id)
        ≡ not (is_promotable (marked decision now a) && is_funded_phase a.plan.phase)
  unfolding apply_decision upgrade_phase mark_target_reached
  is_ok-apply_decision a decision fresh now actor_id = ground arith

  -- A terminating decision on an account that is not due for promotion can be undone: clearing the
  -- breach gives back the account as it was, with the status that it had, which need not be active,
  -- and with no breach on record.
  pub clear_breach-apply_decision :
      (a : Account D) (decision : Decision D) (fresh : Uuid) (now : Timestamp) (actor_id : String)
      → is_terminating decision.kind ≡ true
      → is_promotable a ≡ false
      → (apply_decision a decision fresh now actor_id >>= λ o. clear_breach o.0)
        ≡ ok (record a { status_before_breach = none })
  unfolding apply_decision clear_breach is_terminating account_status_target
  clear_breach-apply_decision a decision fresh now actor_id h k = ground arith

  -- A terminating decision on a stopped account overwrites the status from before the stop:
  -- clearing the breach then leaves the account stopped, with no breach on record, whatever its
  -- status was before the stop.
  pub clear_breach_after_stop :
      (a : Account D) (decision : Decision D) (fresh : Uuid) (now : Timestamp) (actor_id : String)
      → is_terminating decision.kind ≡ true
      → (apply_decision (emergency_stop a) decision fresh now actor_id >>= λ o. clear_breach o.0)
        ≡ ok (record a { status = emergency_stopped; status_before_breach = none })
  unfolding emergency_stop is_promotable
  clear_breach_after_stop a decision fresh now actor_id h =
      clear_breach-apply_decision (emergency_stop a) decision fresh now actor_id h (ground arith)

  -- A decision that is not terminating and does not come to a promotion only puts the target on
  -- record, if it says that the target is hit.
  pub apply_decision_marks :
      (a : Account D) (decision : Decision D) (fresh : Uuid) (now : Timestamp) (actor_id : String)
      → is_terminating decision.kind ≡ false
      → is_promotable (marked decision now a) ≡ false
      → (apply_decision a decision fresh now actor_id >>= λ o. ok o.0) ≡ ok (marked decision now a)
  unfolding apply_decision mark_target_reached is_terminating account_status_target
  apply_decision_marks a decision fresh now actor_id h k = ground arith

  record_target_lem :
      (a : Account D) (decision : Decision D) (now : Timestamp)
      → (record_target decision now a).0 ≡ marked decision now a
  unfolding record_target
  record_target_lem a decision now = ground arith

  marked_keeps :
      (a : Account D) (decision : Decision D) (now : Timestamp)
      → let m = marked decision now a in
        (m.plan ≡ a.plan)
        × (m.balance ≡ a.balance)
        × (m.equity ≡ a.equity)
        × (m.open_positions ≡ a.open_positions)
  unfolding mark_target_reached
  marked_keeps a decision now = ground arith

  promote_lem :
      (m b : Account D) (now : Timestamp) (es : List (DomainEvent D))
      → is_promotable m ≡ true
      → promote now m ≡ ok (b, es)
      → (b.plan.phase ≡ next_phase_for m.plan.phase)
        × (b.account_type ≡ type_of_phase b.plan.phase)
        × (b.active_trading_days ≡ 0)
        × (b.plan.min_trading_days ≡ m.plan.min_trading_days)
        × (b.balance ≡ m.balance)
        × (b.equity ≡ m.equity)
        × (b.open_positions ≡ m.open_positions)
  unfolding promote upgrade_phase reset_for_phase
  promote_lem m b now es h e = ground arith

  -- No decision touches the money, the last tick, the positions or the trades of the day.
  pub apply_decision_keeps :
      (a b : Account D) (decision : Decision D) (fresh : Uuid) (now : Timestamp) (actor_id : String)
      (es : List (DomainEvent D))
      → apply_decision a decision fresh now actor_id ≡ ok (b, es)
      → (b.balance ≡ a.balance)
        × (b.equity ≡ a.equity)
        × (b.estimated_equity ≡ a.estimated_equity)
        × (b.last_tick_ts ≡ a.last_tick_ts)
        × (b.open_positions ≡ a.open_positions)
        × (b.today_trades ≡ a.today_trades)
  unfolding apply_decision upgrade_phase mark_target_reached account_status_target reset_for_phase
  apply_decision_keeps a b decision fresh now actor_id es h = ground arith

  terminate_keeps :
      (a : Account D) (decision : Decision D) (fresh : Uuid) (now : Timestamp) (actor_id : String)
      → let b = (terminate decision fresh now actor_id a).0 in
        (b.plan ≡ a.plan)
        × (b.account_type ≡ a.account_type)
        × (b.active_trading_days ≡ a.active_trading_days)
        × (b.balance ≡ a.balance)
        × (b.equity ≡ a.equity)
        × (b.open_positions ≡ a.open_positions)
  unfolding terminate account_status_target
  terminate_keeps a decision fresh now actor_id = ground arith

  promoted_parts :
      (a b : Account D) (decision : Decision D) (fresh : Uuid) (now : Timestamp) (actor_id : String)
      (es : List (DomainEvent D))
      → is_promotable (marked decision now a) ≡ true
      → apply_decision a decision fresh now actor_id ≡ ok (b, es)
      → (b.plan.phase ≡ next_phase_for a.plan.phase)
        × (b.plan.min_trading_days ≡ a.plan.min_trading_days)
        × (b.account_type ≡ type_of_phase b.plan.phase)
        × (b.active_trading_days ≡ 0)
        × (b.balance ≡ a.balance)
        × (b.equity ≡ a.equity)
        × (b.open_positions ≡ a.open_positions)
  unfolding apply_decision
  promoted_parts a b decision fresh now actor_id es k e =
      let m = marked decision now a in
      let ((p, phase_events), moved, rest) =
        bind-ok (promote now (record_target decision now a).0) _ (b, es) e in
      let at_marked = record_target_lem a decision now in
      let from_marked : promote now m ≡ ok (p, phase_events) =
        ap (promote now) (sym at_marked) ∙ moved in
      ground (
        arith,
        rest,
        promote_lem m p now phase_events k from_marked,
        marked_keeps a decision now,
        terminate_keeps p decision fresh now actor_id,
      )

  stays_in_phase :
      (a b : Account D) (decision : Decision D) (fresh : Uuid) (now : Timestamp) (actor_id : String)
      (es : List (DomainEvent D))
      → is_promotable (marked decision now a) ≡ false
      → apply_decision a decision fresh now actor_id ≡ ok (b, es)
      → (b.plan ≡ a.plan) × (b.account_type ≡ a.account_type)
  unfolding apply_decision mark_target_reached account_status_target
  stays_in_phase a b decision fresh now actor_id es k e = ground arith

  not_promotable :
      (a : Account D) (decision : Decision D) (now : Timestamp)
      → a.active_trading_days ≡ 0
      → 0 < a.plan.min_trading_days
      → is_promotable (marked decision now a) ≡ false
  unfolding is_promotable mark_target_reached
  not_promotable a decision now none_traded wanted = ground arith

  -- When a plan asks for trading days, two decisions in a row promote an account at most once. The
  -- first one, whatever its kind, moves an account that is due for promotion exactly one phase on;
  -- any second one leaves it in that phase, with the type of that phase, since the days of the phase
  -- before do not count any more. Both keep the balance, the equity and the positions.
  pub apply_decision_promotes :
      (a b c : Account D) (first second : Decision D) (f g : Uuid) (at now : Timestamp)
      (actor_id : String) (es fs : List (DomainEvent D))
      → is_promotable (marked first at a) ≡ true
      → 0 < a.plan.min_trading_days
      → apply_decision a first f at actor_id ≡ ok (b, es)
      → apply_decision b second g now actor_id ≡ ok (c, fs)
      → (b.plan.phase ≡ next_phase_for a.plan.phase)
        × (c.plan.phase ≡ b.plan.phase)
        × (c.account_type ≡ type_of_phase c.plan.phase)
        × (c.balance ≡ a.balance)
        × (c.equity ≡ a.equity)
        × (c.open_positions ≡ a.open_positions)
  apply_decision_promotes a b c first second f g at now actor_id es fs k wanted e h =
      let (moved, days, type, none_traded, balance, equity, positions) =
        promoted_parts a b first f at actor_id es k e in
      let stuck = not_promotable b second now none_traded (omega (arith, days, wanted)) in
      ground (
        arith,
        moved,
        type,
        balance,
        equity,
        positions,
        stays_in_phase b c second g now actor_id fs stuck h,
        apply_decision_keeps b c second g now actor_id fs h,
      )

  -- Right after a promotion no account can ask for a payout, also not one promoted to the funded
  -- phase, since it is active and not funded.
  pub mark_payout_pending-promoted :
      (a : Account D) (decision : Decision D) (fresh : Uuid) (now : Timestamp) (actor_id : String)
      → is_promotable (marked decision now a) ≡ true
      → (apply_decision a decision fresh now actor_id >>= λ o. mark_payout_pending o.0)
        ≡ err invalid_state
  unfolding apply_decision upgrade_phase mark_target_reached mark_payout_pending
      account_status_target reset_for_phase
  mark_payout_pending-promoted a decision fresh now actor_id h = ground arith

  -- The liquidation instructions among events.
  unfoldable pub instructions : List (DomainEvent D) → List (LiquidationInstruction D)
  instructions [] = []
  instructions (e ∷ es) = elim e.kind as (λ _. List (LiquidationInstruction D)) [
    | liquidation_requested i ↦ i ∷ instructions es
    | _ ↦ instructions es
  ]

  -- Applying a decision asks for a liquidation exactly when the decision is to liquidate or an
  -- emergency, then once, and for exactly the open positions of the account.
  pub instructions-apply_decision :
      (a b : Account D) (decision : Decision D) (fresh : Uuid) (now : Timestamp) (actor_id : String)
      (es : List (DomainEvent D))
      → apply_decision a decision fresh now actor_id ≡ ok (b, es)
      → map (λ i. i.positions) (instructions es) ≡ (
          if closes_positions decision.kind
          then map from_position (keep is_open a.open_positions) ∷ []
          else [])
  unfolding apply_decision upgrade_phase mark_target_reached account_status_target instructions
      Liquidation.new
  instructions-apply_decision a b decision fresh now actor_id es h = ground arith

  -- A decision on a stopped account leaves it stopped, unless it fails or liquidates.
  pub apply_decision_stopped :
      (a b : Account D) (decision : Decision D) (fresh : Uuid) (now : Timestamp) (actor_id : String)
      (es : List (DomainEvent D))
      → a.status ≡ emergency_stopped
      → apply_decision a decision fresh now actor_id ≡ ok (b, es)
      → b.status ≡ stop_status decision.kind
  unfolding apply_decision upgrade_phase mark_target_reached account_status_target is_promotable
  apply_decision_stopped a b decision fresh now actor_id es s h = ground arith

  -- A decision that is not terminating leaves an account failed or stopped only if it was.
  pub apply_decision_spares :
      (a b : Account D) (decision : Decision D) (fresh : Uuid) (now : Timestamp) (actor_id : String)
      (es : List (DomainEvent D))
      → is_terminating decision.kind ≡ false
      → apply_decision a decision fresh now actor_id ≡ ok (b, es)
      → is_breach_terminal b.status ≡ true
      → b.status ≡ a.status
  unfolding apply_decision upgrade_phase mark_target_reached account_status_target
      is_breach_terminal is_terminating reset_for_phase
  apply_decision_spares a b decision fresh now actor_id es t h k = ground arith
