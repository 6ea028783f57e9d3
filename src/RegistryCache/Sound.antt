-- ===== src/RegistryCache/Sound.antt =====
-- When the cache gives a plan its own registry, and when it does not.
use propfirm_engine.Base.{
  ℕ, not, List, [], ◌∷◌, Option, none, some, ◌≡◌, refl, sym, ap, ◌∙◌, arith, keep, All,
  if◌then◌else◌, ◌==◌, Bool-cases, inl, inr,
}
use propfirm_engine.Decimal.{Decimal}
use propfirm_engine.Core.Calendar.{Calendar}
use propfirm_engine.Core.Plan.{ChallengePlan}
use propfirm_engine.Rules.Registry.{RuleRegistry, empty}
use propfirm_engine.Rules.Library.{Outside}
use propfirm_engine.Rules.Defaults.{
  dropped_by, with_default_rules_for_plan, is_dropped, opt_ins, register_all, default_rules,
}
use propfirm_engine.RegistryCache.{
  PlanKey, plan_key, plan_cache_key, Cache, lookup, insert, get_or_build, found_or_built,
}

module _ {D : Type 0} where
  -- The fields that decide about rules and are not in the key.
  pub record SameUnkeyed (p q : ChallengePlan D) : Type 0 where
    pub profitable : p.min_profitable_days ≡ q.min_profitable_days
    pub hedging : p.cross_account_hedging_prohibited ≡ q.cross_account_hedging_prohibited
    pub lowcap : p.lowcap_exposure_limit_pct ≡ q.lowcap_exposure_limit_pct

  opt_ins_of_key :
      (p q : ChallengePlan D) → plan_key p ≡ plan_key q → SameUnkeyed p q → opt_ins p ≡ opt_ins q
  unfolding plan_key
  opt_ins_of_key p q k u = ground (
    arith,
    ap (λ x. x.hft_ban_enabled) k,
    ap (λ x. x.per_trade_max_loss_pct) k,
    ap (λ x. x.per_trade_max_loss_money) k,
    ap (λ x. x.inactivity_days) k,
    ap (λ x. x.hedging_allowed) k,
    ap (λ x. x.grid_trading_allowed) k,
    ap (λ x. x.copy_trading_allowed) k,
    ap (λ x. x.news_trading_allowed) k,
    ap (λ x. x.cooldown_seconds) k,
  )

  lookup-insert :
      (k j : ℕ) (reg : RuleRegistry D) (cache : Cache D)
      → lookup j (insert k reg cache) ≡ (if k == j then some reg else lookup j cache)
  unfolding lookup insert
  lookup-insert k j reg [] = ground arith
  lookup-insert k j reg ((i, r) ∷ cache) = ground (arith, lookup-insert k j reg cache)

module _ {D : Type 0} ⦃d : Decimal D⦄ ⦃c : Calendar⦄ (outside : Outside D) where
  build_of_key :
      (p q : ChallengePlan D)
      → plan_key p ≡ plan_key q
      → SameUnkeyed p q
      → with_default_rules_for_plan outside p ≡ with_default_rules_for_plan outside q
  unfolding with_default_rules_for_plan is_dropped
  build_of_key p q k u =
      ap
        (λ flags.
          register_all empty
            (keep (λ rule. not (dropped_by outside.named rule.id flags)) (default_rules outside)))
        (opt_ins_of_key p q k u)

module _ {D : Type 0} ⦃d : Decimal D⦄ ⦃c : Calendar⦄ (outside : Outside D)
    (hash : PlanKey D → ℕ) where
  -- The cache after the registries of some plans were asked for.
  unfoldable pub visit : Cache D → List (ChallengePlan D) → Cache D
  visit cache [] = cache
  visit cache (q ∷ plans) = visit (get_or_build outside hash cache q).0 plans

  -- A plan with the same unkeyed fields, whose hash differs from that of `p` if its key does.
  abbrev pub IsApart : ChallengePlan D → ChallengePlan D → Type 0
  IsApart p q =
      SameUnkeyed q p
      × (plan_cache_key outside hash q ≡ plan_cache_key outside hash p → plan_key q ≡ plan_key p)

  IsSoundFor : ChallengePlan D → Cache D → Type 0
  IsSoundFor p cache =
      (reg : RuleRegistry D)
      → lookup (plan_cache_key outside hash p) cache ≡ some reg
      → reg ≡ with_default_rules_for_plan outside p

  IsSoundFor-built :
      (p q : ChallengePlan D) (cache : Cache D) (found : Option (RuleRegistry D))
      → IsApart p q
      → IsSoundFor p cache
      → IsSoundFor p (found_or_built outside hash cache q found).0
  unfolding found_or_built IsSoundFor
  IsSoundFor-built p q cache (some r) apart sound reg e = sound reg e
  IsSoundFor-built p q cache none apart sound reg e =
      let law =
        lookup-insert (plan_cache_key outside hash q) (plan_cache_key outside hash p)
          (with_default_rules_for_plan outside q) cache in
      elim (Bool-cases (plan_cache_key outside hash q == plan_cache_key outside hash p)) [
        | inl same ↦
            (let key = apart.1 (ground (arith, same)) in
              ground (arith, same, law, e, build_of_key outside q p key apart.0))
        | inr other ↦ sound reg (ground (arith, other, law, e))
      ]

  IsSoundFor-visit :
      (p : ChallengePlan D) (plans : List (ChallengePlan D)) (cache : Cache D)
      → All (IsApart p) plans
      → IsSoundFor p cache
      → IsSoundFor p (visit cache plans)
  unfolding visit get_or_build
  IsSoundFor-visit p [] cache apart sound = sound
  IsSoundFor-visit p (q ∷ plans) cache (here, apart) sound =
      IsSoundFor-visit p plans (get_or_build outside hash cache q).0 apart
        (IsSoundFor-built p q cache (lookup (plan_cache_key outside hash q) cache) here sound)

  registry-built :
      (p : ChallengePlan D) (cache : Cache D) (found : Option (RuleRegistry D))
      → ((reg : RuleRegistry D) → found ≡ some reg → reg ≡ with_default_rules_for_plan outside p)
      → (found_or_built outside hash cache p found).1 ≡ with_default_rules_for_plan outside p
  unfolding found_or_built
  registry-built p cache (some reg) sound = sound reg refl
  registry-built p cache none sound = refl

  -- Starting from the empty cache, after the registries of any plans were asked for that agree with
  -- a plan on the minimum of profitable days, the ban on cross-account hedging and the exposure cap,
  -- and whose hashed fields have another hash than those of the plan unless they are the same, the
  -- cache gives the plan the registry of its own default rules.
  pub get_or_build-visit :
      (p : ChallengePlan D) (plans : List (ChallengePlan D))
      → All (IsApart p) plans
      → (get_or_build outside hash (visit [] plans) p).1 ≡ with_default_rules_for_plan outside p
  unfolding get_or_build IsSoundFor lookup
  get_or_build-visit p plans apart =
      registry-built p (visit [] plans) (lookup (plan_cache_key outside hash p) (visit [] plans))
        (IsSoundFor-visit p plans [] apart (λ reg e. ground (arith, e)))

  lookup-built :
      (p : ChallengePlan D) (cache : Cache D) (found : Option (RuleRegistry D))
      → lookup (plan_cache_key outside hash p) cache ≡ found
      → lookup (plan_cache_key outside hash p) (found_or_built outside hash cache p found).0
        ≡ some (found_or_built outside hash cache p found).1
  unfolding found_or_built
  lookup-built p cache (some reg) e = e
  lookup-built p cache none e =
      let law =
        lookup-insert (plan_cache_key outside hash p) (plan_cache_key outside hash p)
          (with_default_rules_for_plan outside p) cache in
      ground (arith, law)

  found-built :
      (p : ChallengePlan D) (cache : Cache D) (found : Option (RuleRegistry D))
      (reg : RuleRegistry D)
      → found ≡ some reg
      → (found_or_built outside hash cache p found).1 ≡ reg
  unfolding found_or_built
  found-built p cache (some r) reg e = ground (arith, e)
  found-built p cache none reg e = ground (arith, e)

  -- When two plans agree on the hashed fields, the one asked for second is given the registry of the
  -- one asked for first, whatever the cache held before and however their unkeyed fields differ.
  pub get_or_build-same_key :
      (p q : ChallengePlan D) (cache : Cache D)
      → plan_key p ≡ plan_key q
      → (get_or_build outside hash (get_or_build outside hash cache p).0 q).1
        ≡ (get_or_build outside hash cache p).1
  unfolding get_or_build plan_cache_key
  get_or_build-same_key p q cache k =
      let after = found_or_built outside hash cache p (lookup (hash (plan_key p)) cache) in
      found-built q after.0 (lookup (hash (plan_key q)) after.0) after.1 (
        ap (λ x. lookup (hash x) after.0) (sym k)
        ∙ lookup-built p cache (lookup (hash (plan_key p)) cache) refl)
