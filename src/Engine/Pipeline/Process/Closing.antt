-- ===== src/Engine/Pipeline/Process/Closing.antt =====
-- The whole pipeline on the rules of a pack: what an estimated tick cannot do.
use propfirm_engine.Base.{
  ℕ, false, List, [], ◌∷◌, map, Result, ok, ◌≡◌, refl, ap, ◌∙◌, subst, arith, any, IsOneOf, inl,
  inr,
}
use propfirm_engine.Decimal.{Decimal}
use propfirm_engine.Core.Ids.{Uuid, Timestamp}
use propfirm_engine.Core.Calendar.{Calendar}
use propfirm_engine.Core.Violation.{Violation}
use propfirm_engine.Core.Account.{Account}
use propfirm_engine.Core.Events.{DomainEvent}
use propfirm_engine.Core.Trading.{Tick}
use propfirm_engine.Rules.Verdict.{RuleReport, RuleVerdict}
use propfirm_engine.Rules.Registry.{RuleRegistry}
use propfirm_engine.Rules.Library.{Outside}
use propfirm_engine.Rules.Pack.{RulePack}
use propfirm_engine.Rules.Defaults.{build_from_pack}
use propfirm_engine.Rules.Defaults.Estimates.{liquidates}
use propfirm_engine.Rules.Defaults.NeverLiquidates.{pack_never_liquidates}
use propfirm_engine.Engine.Decision.{DecisionKind, from_reports}
use propfirm_engine.Engine.Decision.Winner.{kind_of}
use propfirm_engine.Engine.Decision.Order.{from_reports_wins, bid}
use propfirm_engine.Engine.Pipeline.Applied.{closes_positions}
use propfirm_engine.Engine.Pipeline.Events.{tick_estimated}
use propfirm_engine.Engine.Pipeline.Process.{PipelineResult, process, build_context}
use propfirm_engine.Engine.Pipeline.Process.Stages.{stages}
use propfirm_engine.Engine.Pipeline.Process.Estimated.{with_registry, estimated_context}

module _ {D : Type 0} where
  closes-kind_of : (v : RuleVerdict D) → closes_positions (kind_of v) ≡ liquidates v
  closes-kind_of RuleVerdict.pass = refl
  closes-kind_of RuleVerdict.skip = refl
  closes-kind_of (RuleVerdict.warn _) = refl
  closes-kind_of (RuleVerdict.fail _) = refl
  closes-kind_of (RuleVerdict.soft_fail _) = refl
  closes-kind_of (RuleVerdict.liquidate _) = refl
  closes-kind_of (RuleVerdict.target_hit _) = refl
  closes-kind_of (RuleVerdict.emergency _) = refl
  closes-kind_of (RuleVerdict.early_warning _) = refl
  closes-kind_of (RuleVerdict.gap_flagged _) = refl

  closes-bid :
      (k : DecisionKind) (n : ℕ) (rs : List (RuleReport D))
      → any (λ r. liquidates r.verdict) rs ≡ false
      → IsOneOf (k, n) (map bid rs)
      → closes_positions k ≡ false
  closes-bid k n [] h e = elim e [ ]
  closes-bid k n (r ∷ rs) h (inl e) = ground (arith, h, e, closes-kind_of r.verdict)
  closes-bid k n (r ∷ rs) h (inr e) = closes-bid k n rs (ground (arith, h)) e

  -- Without a report that liquidates, the decision closes no positions.
  closes-from_reports :
      (rs : List (RuleReport D))
      → any (λ r. liquidates r.verdict) rs ≡ false
      → closes_positions (from_reports rs).kind ≡ false
  closes-from_reports rs h = elim (from_reports_wins rs).0 [
    | inl e ↦ ground (arith, e)
    | inr e ↦ closes-bid (from_reports rs).kind (from_reports rs).winning_priority rs h e
  ]

module _ {D : Type 0} ⦃d : Decimal D⦄ ⦃c : Calendar⦄ where
  -- With the rules of any pack that is accepted, an estimated tick that is processed leads to a
  -- decision that closes no positions, and no report of its rules is a liquidation or an emergency.
  pub closes-process :
      (outside : Outside D) (pack : RulePack D) (reg : RuleRegistry D)
      (recent : Uuid → ℕ → Result (List (DomainEvent D))) (notify : Violation D → Result (Unit {0}))
      (fresh : Uuid → Uuid) (a : Account D) (t : Tick D) (now : Timestamp) (f g : Uuid)
      (r : PipelineResult D)
      → build_from_pack outside pack ≡ ok reg
      → process (with_registry recent notify fresh reg) a (tick_estimated t) now f g ≡ ok r
      → (closes_positions r.decision.kind ≡ false)
        × (any (λ report. liquidates report.verdict) r.reports ≡ false)
  unfolding with_registry
  closes-process outside pack reg recent notify fresh a t now f g r built h =
      let services = with_registry recent notify fresh reg in
      let (_, x, _, _, _, _, _, _, e4, seen, e5) =
        stages services a (tick_estimated t) now f g r h in
      let (reports, given, harmless) =
        pack_never_liquidates outside fresh pack reg (build_context x (tick_estimated t) seen now)
          built (estimated_context x t seen now) in
      let same : reports ≡ r.reports = ground (arith, given, e5) in
      let mild : any (λ report. liquidates report.verdict) r.reports ≡ false =
        subst (λ rs. any (λ report. liquidates report.verdict) rs ≡ false) same harmless in
      (ap (λ k. closes_positions k.kind) e4 ∙ closes-from_reports r.reports mild, mild)
