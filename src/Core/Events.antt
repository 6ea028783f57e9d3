-- ===== src/Core/Events.antt =====
-- core/events.rs: the domain events. The id and the causation of an event, and the event of an
-- account snapshot, which the pipeline does not emit, are left out.
use propfirm_engine.Base.{ℕ, List, String}
use propfirm_engine.Core.Ids.{Uuid, Timestamp}
use propfirm_engine.Core.Violation.{Violation}
use propfirm_engine.Core.Trading.{Trade, PositionSide}
use propfirm_engine.Core.Order.{OrderStatus}
use propfirm_engine.Core.Plan.{ChallengePlan, ChallengePhase}
use propfirm_engine.Core.Account.{AccountStatus}
use propfirm_engine.Core.Liquidation.{LiquidationInstruction}

pub data DomainEventKind (D : Type 0) : Type 0 where
  account_started : ChallengePlan D → DomainEventKind D
  account_status_changed : AccountStatus → AccountStatus → DomainEventKind D
  order_event : Uuid → OrderStatus → DomainEventKind D
  trade_filled : Trade D → DomainEventKind D
  position_opened : Uuid → String → PositionSide → D → DomainEventKind D
  position_closed : Uuid → D → DomainEventKind D
  tick_evaluated : D → DomainEventKind D
  day_rollover : ℕ → D → DomainEventKind D
  rule_violated : Violation D → DomainEventKind D
  plan_upgraded : ChallengePhase → ChallengePhase → DomainEventKind D
  payout_requested : D → D → DomainEventKind D
  payout_approved : D → D → DomainEventKind D
  liquidation_requested : LiquidationInstruction D → DomainEventKind D
  override_cleared : Uuid → List ℕ → List ℕ → Timestamp → DomainEventKind D

pub record DomainEvent (D : Type 0) : Type 0 where
  pub account_id : Uuid
  pub kind : DomainEventKind D
  pub occurred_at : Timestamp

-- `DomainEvent::new`
abbrev pub event : {D : Type 0} → Uuid → DomainEventKind D → Timestamp → DomainEvent D
event account_id kind at = record { account_id = account_id; kind = kind; occurred_at = at }
