-- ===== src/Rules/Defaults/Registered.antt =====
-- What holds of every rule of a registry, and of the verdicts of a registry whose rules never liquidate.
use propfirm_engine.Base.{
  ℕ, suc, zero, String, Bool, false, List, [], ◌∷◌, ◌++◌, Option, none, some, ◌≡◌, refl, sym, subst,
  arith, any, keep, All, same_string, Bool-cases, Option-cases, Result-cases, inl, inr,
}
use propfirm_engine.Core.Ids.{Uuid}
use propfirm_engine.Rules.Params.{RuleParams}
use propfirm_engine.Rules.Context.{RuleContext, require_broker_equity}
use propfirm_engine.Rules.Registry.{
  Rule, RuleRegistry, register, run_rules, verdict_of, report_of, failure_verdict, set_at, lookup,
}
use propfirm_engine.Rules.Defaults.{register_all, factory_in}
use propfirm_engine.Rules.Defaults.Estimates.{liquidates, NeverLiquidates}

module _ {D : Type 0} where
  -- A rule that fails gives a verdict by its policy, which never liquidates.
  liquidates-verdict_of :
      (rule : Rule D) (fresh : Uuid) (ctx : RuleContext D)
      → NeverLiquidates rule
      → require_broker_equity ctx ≡ none
      → liquidates (verdict_of rule fresh ctx) ≡ false
  unfolding NeverLiquidates verdict_of failure_verdict
  liquidates-verdict_of rule fresh ctx never e = elim (Result-cases (rule.evaluate fresh ctx)) [
    | inl (v, given) ↦ ground (arith, given, never fresh ctx e)
    | inr (x, failed) ↦ ground (arith, failed)
  ]

  pub liquidates-run_rules :
      (fresh : Uuid → Uuid) (ctx : RuleContext D) (rules : List (Rule D))
      → All NeverLiquidates rules
      → require_broker_equity ctx ≡ none
      → any (λ r. liquidates r.verdict) (run_rules fresh ctx rules) ≡ false
  unfolding run_rules report_of
  liquidates-run_rules fresh ctx [] h e = refl
  liquidates-run_rules fresh ctx (rule ∷ rules) (h, hs) e = ground (
    arith,
    liquidates-verdict_of rule (fresh rule.id) ctx h e,
    liquidates-run_rules fresh ctx rules hs e,
  )

  module _ (P : Rule D → Type 0) where
    pub All-keep : (p : Rule D → Bool) (rs : List (Rule D)) → All P rs → All P (keep p rs)
    All-keep p [] h = tt
    All-keep p (r ∷ rs) (h, hs) = elim (Bool-cases (p r)) [
      | inl e ↦ rw e (h, All-keep p rs hs)
      | inr e ↦ rw e (All-keep p rs hs)
    ]

    All-set_at : (rs : List (Rule D)) (i : ℕ) (r : Rule D) → All P rs → P r → All P (set_at rs i r)
    All-set_at [] i r h k = tt
    All-set_at (x ∷ rs) zero r (h, hs) k = (k, hs)
    All-set_at (x ∷ rs) (suc i) r (h, hs) k = (h, All-set_at rs i r hs k)

    All-append : (rs : List (Rule D)) (r : Rule D) → All P rs → P r → All P (rs ++ r ∷ [])
    All-append [] r h k = (k, tt)
    All-append (x ∷ rs) r (h, hs) k = (h, All-append rs r hs k)

    pub All-register :
        (reg : RuleRegistry D) (r : Rule D) → All P reg.rules → P r → All P (register reg r).rules
    unfolding register
    All-register reg r h k = elim (Option-cases (lookup r.id reg.by_id)) [
      | inl e ↦
          (let same : (register reg r).rules ≡ reg.rules ++ r ∷ [] = ground (arith, e) in
            subst (All P) (sym same) (All-append reg.rules r h k))
      | inr (i, e) ↦
          (let same : (register reg r).rules ≡ set_at reg.rules i r = ground (arith, e) in
            subst (All P) (sym same) (All-set_at reg.rules i r h k))
    ]

    pub All-register_all :
        (reg : RuleRegistry D) (rs : List (Rule D))
        → All P reg.rules
        → All P rs
        → All P (register_all reg rs).rules
    unfolding register_all
    All-register_all reg [] h hs = h
    All-register_all reg (r ∷ rs) h (k, ks) =
        All-register_all (register reg r) rs (All-register reg r h k) ks

    pub All-factory_in :
        (kind : String) (l : List (String × (Option (RuleParams D) → Rule D)))
        (factory : Option (RuleParams D) → Rule D)
        → All (λ x. (p : Option (RuleParams D)) → P (x.1 p)) l
        → factory_in kind l ≡ some factory
        → (p : Option (RuleParams D)) → P (factory p)
    unfolding factory_in
    All-factory_in kind [] factory h e p = absurd (ground (arith, e))
    All-factory_in kind ((k, f) ∷ l) factory (h, hs) e p = elim (Bool-cases (same_string kind k)) [
      | inl same ↦ (let eq : f ≡ factory = ground (arith, e, same) in subst (λ g. P (g p)) eq (h p))
      | inr other ↦ All-factory_in kind l factory hs (ground (arith, e, other)) p
    ]
