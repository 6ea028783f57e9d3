-- ===== src/Engine/Pipeline/Process/Estimated.antt =====
-- An estimated tick never terminates an account: the pipeline and a registry together.
use propfirm_engine.Base.{
  ◌⊎◌, inl, inr, Bool-cases, ℕ, ◌≡◌, false, List, none, arith, Result, ok, All,
}
use propfirm_engine.Decimal.{Decimal}
use propfirm_engine.Core.Ids.{Uuid, Timestamp}
use propfirm_engine.Core.Calendar.{Calendar}
use propfirm_engine.Core.Violation.{Violation}
use propfirm_engine.Core.Account.{Account, is_breach_terminal}
use propfirm_engine.Core.Events.{DomainEvent}
use propfirm_engine.Core.Trading.{Tick}
use propfirm_engine.Rules.Context.{require_broker_equity}
use propfirm_engine.Rules.Registry
use propfirm_engine.Rules.Registry.{RuleRegistry}
use propfirm_engine.Rules.Registry.Estimates.{SparesEstimates, evaluate_spared}
use propfirm_engine.Engine.Decision.{is_terminating}
use propfirm_engine.Engine.Decision.Order.{is_terminating-from_reports}
use propfirm_engine.Engine.Pipeline.Applied.{apply_decision_spares}
use propfirm_engine.Engine.Pipeline.Events.{AppliedEvent, apply_event, tick_estimated}
use propfirm_engine.Engine.Pipeline.Process.{
  Services, PipelineResult, process, build_context, consume_fill,
}
use propfirm_engine.Engine.Pipeline.Process.Stages.{stages}
use propfirm_engine.Engine.Pipeline.Process.Results.{mark_tick_keeps}
use propfirm_engine.Engine.State.{set_estimated_equity}

-- The services of a pipeline whose rules are those of a registry.
unfoldable pub with_registry :
    {D : Type 0}
    → (Uuid → ℕ → Result (List (DomainEvent D)))
    → (Violation D → Result (Unit {0}))
    → (Uuid → Uuid)
    → RuleRegistry D
    → Services D
with_registry recent notify fresh reg = record {
  recent = recent;
  evaluate_rules = Registry.evaluate fresh reg;
  notify_violation = notify;
}

module _ {D : Type 0} ⦃d : Decimal D⦄ ⦃c : Calendar⦄ where
  pub estimated_context :
      (x : AppliedEvent D) (t : Tick D) (recent : List (DomainEvent D)) (now : Timestamp)
      → require_broker_equity (build_context x (tick_estimated t) recent now) ≡ none
  unfolding build_context
  estimated_context x t recent now = ground arith

  estimate_keeps_status :
      (a : Account D) (t : Tick D) (now : Timestamp) (f : Uuid) (x : AppliedEvent D)
      → apply_event a (tick_estimated t) now f ≡ ok x
      → (consume_fill x.trade_fill x.state).status ≡ a.status
  unfolding apply_event set_estimated_equity consume_fill
  estimate_keeps_status a t now f x h = ground arith

  -- With a registry of rules that never terminate on an estimate, the decision on an estimated tick
  -- is not terminating, and after it the account is not failed or stopped, or has the status of
  -- before.
  pub process_estimated_spares :
      (recent : Uuid → ℕ → Result (List (DomainEvent D))) (notify : Violation D → Result (Unit {0}))
      (fresh : Uuid → Uuid) (reg : RuleRegistry D) (a : Account D) (t : Tick D) (now : Timestamp)
      (f g : Uuid) (r : PipelineResult D)
      → All SparesEstimates reg.rules
      → process (with_registry recent notify fresh reg) a (tick_estimated t) now f g ≡ ok r
      → (is_terminating r.decision.kind ≡ false)
        × ((is_breach_terminal r.account.status ≡ false) ⊎ (r.account.status ≡ a.status))
  unfolding with_registry
  process_estimated_spares recent notify fresh reg a t now f g r spares h =
      let ev = tick_estimated t in
      let services = with_registry recent notify fresh reg in
      let (rolled, x, ended, decided, same, e1, e2, e3, e4, seen, e5) =
        stages services a ev now f g r h in
      let (_, _, _, status_kept, _, _, _, _) = same in
      let (reports, given, harmless) =
        evaluate_spared fresh reg (build_context x ev seen now) spares
          (estimated_context x t seen now) in
      let fed = consume_fill x.trade_fill x.state in
      let mild : is_terminating r.decision.kind ≡ false =
        ground (arith, e4, e5, given, harmless, is_terminating-from_reports reports) in
      (
        mild,
        elim (Bool-cases (is_breach_terminal r.account.status)) [
          | inr spared ↦ inl spared
          | inl k ↦ inr (
              ground (
                arith,
                e3,
                status_kept,
                mark_tick_keeps ended ev,
                estimate_keeps_status rolled t now f x e1,
                apply_decision_spares fed ended r.decision g now _ decided mild e2,
              ))
        ],
      )
