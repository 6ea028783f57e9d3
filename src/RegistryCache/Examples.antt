-- ===== src/RegistryCache/Examples.antt =====
-- The cache on plans that share a key and plans that do not.
use propfirm_engine.Base.{ℕ, ◌+◌, ◌≡◌, refl, some, [], ◌∷◌, true, false, none, arith}
use propfirm_engine.Fixtures.{calendar, plan}
use propfirm_engine.Core.Plan.{ChallengePlan}
use propfirm_engine.Decimal.Scaled.{Scaled, scaled_decimal}
use propfirm_engine.Rules.Defaults.{with_default_rules_for_plan}
use propfirm_engine.Rules.Defaults.Examples.{outside}
use propfirm_engine.RegistryCache.{PlanKey, plan_cache_key, plan_key, get_or_build}
use propfirm_engine.RegistryCache.Sound.{get_or_build-visit, visit}
use propfirm_engine.RegistryCache.Stale.{offers, get_or_build-stale}

-- A hash that reads only the leverage.
abbrev hash : PlanKey Scaled → ℕ
hash key = key.leverage

abbrev other_leverage : ChallengePlan Scaled
other_leverage = record plan { leverage = plan.leverage + 1; hedging_allowed = true }

get_or_build-visit_example :
    (get_or_build outside hash (visit outside hash [] (other_leverage ∷ plan ∷ [])) plan).1
    ≡ with_default_rules_for_plan outside plan
unfolding plan_cache_key plan_key
get_or_build-visit_example = get_or_build-visit outside hash plan (other_leverage ∷ plan ∷ []) (
  (record { profitable = refl; hedging = refl; lowcap = refl }, λ e. absurd (omega (arith, e))),
  ((record { profitable = refl; hedging = refl; lowcap = refl }, λ e. refl), tt),
)

-- A plan that asks for profitable days and bans hedging across accounts.
abbrev strict : ChallengePlan Scaled
strict = record plan {
  min_profitable_days = some 3;
  cross_account_hedging_prohibited = true;
  lowcap_exposure_limit_pct = none;
}

get_or_build-stale_example :
    let given = (get_or_build outside hash (get_or_build outside hash [] plan).0 strict).1 in
    let own = with_default_rules_for_plan outside strict in
    (offers outside "min_profitable_days" given ≡ false)
    × (offers outside "cross_account_hedging" given ≡ false)
    × (offers outside "lowcap_exposure" given ≡ false)
    × (offers outside "min_profitable_days" own ≡ true)
    × (offers outside "cross_account_hedging" own ≡ true)
    × (offers outside "lowcap_exposure" own ≡ false)
get_or_build-stale_example =
    get_or_build-stale outside refl hash plan (some 3) true none refl refl refl
