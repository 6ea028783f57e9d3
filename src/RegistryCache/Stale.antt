-- ===== src/RegistryCache/Stale.antt =====
-- The rules that a plan loses to an older entry of the cache.
use propfirm_engine.Base.{
  ℕ, String, Bool, true, false, not, List, [], ◌∷◌, Option, none, is_some, ◌≡◌, refl, sym, ap, ◌∙◌,
  arith, any, any-keep, keep, same_string, inl, inr, IsOneOf,
}
use propfirm_engine.Decimal.{Decimal}
use propfirm_engine.Core.Ids.{Uuid}
use propfirm_engine.Core.Calendar.{Calendar}
use propfirm_engine.Core.Plan.{ChallengePlan}
use propfirm_engine.Rules.Registry.{Rule, RuleRegistry, empty}
use propfirm_engine.Rules.Registry.Index.{has_id}
use propfirm_engine.Rules.Library.{
  Outside, min_profitable_days_rule, cross_account_hedging_rule, lowcap_exposure_rule,
}
use propfirm_engine.Rules.Defaults.{with_default_rules_for_plan, is_dropped, default_rules, opt_ins}
use propfirm_engine.Rules.Defaults.Names.{rule_names, keeps_apart, dropped_text}
use propfirm_engine.Rules.Defaults.Distinct.{rules-register_all, empty-IsIndexed, AreDistinct-keep}
use propfirm_engine.Rules.Defaults.Plans.{AreDistinct-default_rules, is_dropped_name}
use propfirm_engine.RegistryCache.{PlanKey, plan_key, get_or_build}
use propfirm_engine.RegistryCache.Sound.{get_or_build-same_key, get_or_build-visit, visit}

module _ {ℓ} {A : Type ℓ} where
  any-keep_all :
      (p q : A → Bool) (xs : List A)
      → ((x : A) → q x ≡ true → p x ≡ true)
      → any q (keep p xs) ≡ any q xs
  any-keep_all p q [] h = refl
  any-keep_all p q (x ∷ xs) h = ground (arith, any-keep_all p q xs h, h x)

  -- A test that decides whether an element is kept.
  any-keep_if :
      (p q : A → Bool) (xs : List A) (v : Bool)
      → ((x : A) → q x ≡ true → p x ≡ v)
      → any q xs ≡ true
      → any q (keep p xs) ≡ v
  any-keep_if p q xs true h k = any-keep_all p q xs h ∙ k
  any-keep_if p q xs false h k = any-keep p q xs h

id_of_has : {D : Type 0} (id : Uuid) (rule : Rule D) → has_id id rule ≡ true → rule.id ≡ id
id_of_has id rule h = ground (arith, h)

has_of_id : {D : Type 0} (id : Uuid) (rule : Rule D) → rule.id ≡ id → has_id id rule ≡ true
has_of_id id rule e = ground (arith, e)

-- A rule of a list has the id that it has.
any_rule :
    {D : Type 0} (id : Uuid) (rule : Rule D) (rules : List (Rule D))
    → IsOneOf rule rules
    → rule.id ≡ id
    → any (has_id id) rules ≡ true
any_rule id rule [] e h = elim e [ ]
any_rule id rule (r ∷ rules) (inl e) h =
    let found = has_of_id id r (ap (λ x. x.id) (sym e) ∙ h) in ground (arith, found)
any_rule id rule (r ∷ rules) (inr e) h = ground (arith, any_rule id rule rules e h)

module _ {D : Type 0} where
  min_profitable_days_kept :
      (plan : ChallengePlan D)
      → not (dropped_text "min_profitable_days" (opt_ins plan)) ≡ is_some plan.min_profitable_days
  min_profitable_days_kept plan = ground arith

  cross_account_hedging_kept :
      (plan : ChallengePlan D)
      → not (dropped_text "cross_account_hedging" (opt_ins plan))
        ≡ plan.cross_account_hedging_prohibited
  cross_account_hedging_kept plan = ground arith

  lowcap_exposure_kept :
      (plan : ChallengePlan D)
      → not (dropped_text "lowcap_exposure" (opt_ins plan)) ≡ is_some plan.lowcap_exposure_limit_pct
  lowcap_exposure_kept plan = ground arith

module _ {D : Type 0} ⦃d : Decimal D⦄ ⦃c : Calendar⦄ (outside : Outside D) where
  -- Whether a registry holds the rule of this name.
  abbrev pub offers : String → RuleRegistry D → Bool
  offers s reg = any (has_id (outside.named s)) reg.rules

  module _ (apart : keeps_apart outside.named rule_names ≡ true) where
    -- The registry of a plan holds a default rule unless the plan leaves it out by its name.
    offers-with_default_rules_for_plan :
        (plan : ChallengePlan D) (s : String)
        → any (same_string s) rule_names ≡ true
        → any (has_id (outside.named s)) (default_rules outside) ≡ true
        → offers s (with_default_rules_for_plan outside plan) ≡ not (dropped_text s (opt_ins plan))
    unfolding with_default_rules_for_plan empty
    offers-with_default_rules_for_plan plan s known listed =
        let keeps = λ (rule : Rule D). not (is_dropped outside plan rule) in
        let (rules, _) =
          rules-register_all empty (keep keeps (default_rules outside)) (empty-IsIndexed D) (
            AreDistinct-keep keeps (default_rules outside)
              (AreDistinct-default_rules outside apart)) in
        ap (any (has_id (outside.named s))) rules
        ∙ any-keep_if keeps (has_id (outside.named s)) (default_rules outside)
            (not (dropped_text s (opt_ins plan)))
            (λ rule same. ap not (
              is_dropped_name outside apart plan rule s (id_of_has (outside.named s) rule same)
                known))
            listed

    offers_unkeyed :
        (plan : ChallengePlan D)
        → (offers "min_profitable_days" (with_default_rules_for_plan outside plan)
            ≡ is_some plan.min_profitable_days)
          × (offers "cross_account_hedging" (with_default_rules_for_plan outside plan)
              ≡ plan.cross_account_hedging_prohibited)
          × (offers "lowcap_exposure" (with_default_rules_for_plan outside plan)
              ≡ is_some plan.lowcap_exposure_limit_pct)
    unfolding default_rules min_profitable_days_rule cross_account_hedging_rule lowcap_exposure_rule
    offers_unkeyed plan = (
      offers-with_default_rules_for_plan plan "min_profitable_days" refl (
            any_rule (outside.named "min_profitable_days") (min_profitable_days_rule outside none)
              (default_rules outside) (inr (inr (inr (inr (inr (inl refl)))))) refl)
          ∙ min_profitable_days_kept plan,
      offers-with_default_rules_for_plan plan "cross_account_hedging" refl (
            any_rule (outside.named "cross_account_hedging")
              (cross_account_hedging_rule outside none) (default_rules outside)
              (inr (
                inr (
                  inr (
                    inr (
                      inr (
                        inr (
                          inr (
                            inr (
                              inr (
                                inr (
                                  inr (
                                    inr (
                                      inr (
                                        inr (
                                          inr (
                                            inr (
                                              inr (
                                                inr (
                                                  inr (
                                                    inr (
                                                      inr (
                                                        inr (
                                                          inr (
                                                            inr (
                                                            inr (
                                                            inr (inl refl)))))))))))))))))))))))))))
              refl)
          ∙ cross_account_hedging_kept plan,
      offers-with_default_rules_for_plan plan "lowcap_exposure" refl (
            any_rule (outside.named "lowcap_exposure") (lowcap_exposure_rule outside none)
              (default_rules outside)
              (inr (
                inr (
                  inr (
                    inr (
                      inr (
                        inr (
                          inr (
                            inr (
                              inr (
                                inr (
                                  inr (
                                    inr (
                                      inr (
                                        inr (
                                          inr (
                                            inr (
                                              inr (
                                                inr (
                                                  inr (
                                                    inr (
                                                      inr (
                                                        inr (
                                                          inr (
                                                            inr (
                                                            inr (
                                                            inr (
                                                            inr
                                                            (inl refl))))))))))))))))))))))))))))
              refl)
          ∙ lowcap_exposure_kept plan,
    )

    -- The cache loses rules. From the empty cache, a plan that asks for none of the rules on
    -- profitable days, cross-account hedging and low-cap exposure is asked for first, then the same
    -- plan with any settings of these three. The second one is given a registry with none of the
    -- three rules, whatever the hasher, while its own default rules would hold each of them exactly
    -- if it is set. The ids of the default rules are different.
    pub get_or_build-stale :
        (hash : PlanKey D → ℕ) (plan : ChallengePlan D) (days : Option ℕ) (prohibited : Bool)
        (limit : Option D)
        → plan.min_profitable_days ≡ none
        → plan.cross_account_hedging_prohibited ≡ false
        → plan.lowcap_exposure_limit_pct ≡ none
        → let other = record plan {
          min_profitable_days = days;
          cross_account_hedging_prohibited = prohibited;
          lowcap_exposure_limit_pct = limit;
        } in
          let given = (get_or_build outside hash (get_or_build outside hash [] plan).0 other).1 in
          let own = with_default_rules_for_plan outside other in
          (offers "min_profitable_days" given ≡ false)
          × (offers "cross_account_hedging" given ≡ false)
          × (offers "lowcap_exposure" given ≡ false)
          × (offers "min_profitable_days" own ≡ is_some days)
          × (offers "cross_account_hedging" own ≡ prohibited)
          × (offers "lowcap_exposure" own ≡ is_some limit)
    unfolding plan_key visit
    get_or_build-stale hash plan days prohibited limit no_days no_ban no_cap =
        let other = record plan {
          min_profitable_days = days;
          cross_account_hedging_prohibited = prohibited;
          lowcap_exposure_limit_pct = limit;
        } in
        let same =
          get_or_build-same_key outside hash plan other [] refl
          ∙ get_or_build-visit outside hash plan [] tt in
        let (a, b, e) = offers_unkeyed plan in
        let (x, y, z) = offers_unkeyed other in
        (
          ap (offers "min_profitable_days") same ∙ a ∙ ap is_some no_days,
          ap (offers "cross_account_hedging") same ∙ b ∙ no_ban,
          ap (offers "lowcap_exposure") same ∙ e ∙ ap is_some no_cap,
          x,
          y,
          z,
        )
