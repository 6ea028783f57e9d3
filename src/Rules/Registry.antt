-- ===== src/Rules/Registry.antt =====
-- rules/registry.rs: the rules that an evaluation runs, by their ids, and the evaluation. Of
-- rules/traits.rs, a rule as the registry sees it. The `HashMap` is an association list.
pub mod Index
pub mod Removal
pub mod Estimates
use propfirm_engine.Base.{
  ℕ, zero, suc, ◌+◌, Bool, true, false, not, ◌&&◌, ◌||◌, List, [], ◌∷◌, ◌++◌, Option, none, some,
  if◌then◌else◌, ◌==◌, length, get_elem?, keep, same_string, Result, ok, err, String,
}
use propfirm_engine.Core.Ids.{Uuid}
use propfirm_engine.Core.Violation.{Violation, ViolationKind, ViolationSeverity}
use propfirm_engine.Rules.Verdict.{
  EvaluationScope, RuleVerdict, RuleReport, pre_trade, post_trade, on_tick, periodic, on_demand,
}
use propfirm_engine.Rules.Context.{RuleContext, RuleContextKind, build_violation}

pub record Rule (D : Type 0) : Type 0 where
  pub id : Uuid
  pub name : String
  pub kind : ViolationKind
  pub scope : EvaluationScope
  pub priority : ℕ
  pub failure_policy : Option String
  pub is_enabled : RuleContext D → Bool
  -- With the fresh id of a violation. A panic is the error `panicked`.
  pub evaluate : Uuid → RuleContext D → Result (RuleVerdict D)

pub record RuleRegistry (D : Type 0) : Type 0 where
  pub rules : List (Rule D)
  pub by_id : List (Uuid × ℕ)

-- The map's `get`, `insert` and `remove`.
abbrev pub lookup : Uuid → List (Uuid × ℕ) → Option ℕ
lookup id [] = none
lookup id ((k, i) ∷ m) = let rest = lookup id m in if k == id then some i else rest

abbrev pub insert : Uuid → ℕ → List (Uuid × ℕ) → List (Uuid × ℕ)
insert id i m = (id, i) ∷ keep (λ e. not (e.0 == id)) m

-- `rules[idx] = rule` and `rules.remove(idx)`, which panic out of range; see `Index`.
abbrev pub set_at {ℓ} : {A : Type ℓ} → List A → ℕ → A → List A
set_at [] i a = []
set_at (x ∷ xs) zero a = a ∷ xs
set_at (x ∷ xs) (suc i) a = x ∷ set_at xs i a

abbrev pub remove_at {ℓ} : {A : Type ℓ} → List A → ℕ → List A
remove_at [] i = []
remove_at (x ∷ xs) zero = xs
remove_at (x ∷ xs) (suc i) = x ∷ remove_at xs i

abbrev same_scope : EvaluationScope → EvaluationScope → Bool
same_scope pre_trade pre_trade = true
same_scope post_trade post_trade = true
same_scope on_tick on_tick = true
same_scope periodic periodic = true
same_scope on_demand on_demand = true
same_scope _ _ = false

-- Whether a rule of this scope runs in a context of this kind.
unfoldable pub runs_in : RuleContextKind → EvaluationScope → Bool
runs_in RuleContextKind.on_order_submit scope =
    same_scope scope pre_trade || same_scope scope on_demand
runs_in RuleContextKind.on_trade_fill scope =
    same_scope scope post_trade || same_scope scope on_demand
runs_in RuleContextKind.on_tick scope = same_scope scope on_tick || same_scope scope on_demand
runs_in RuleContextKind.on_day_rollover scope =
    same_scope scope periodic || same_scope scope on_demand
runs_in RuleContextKind.on_end_of_day scope =
    same_scope scope periodic || same_scope scope on_demand
runs_in RuleContextKind.on_demand scope = true

module _ {D : Type 0} where
  unfoldable pub empty : RuleRegistry D
  empty = record { rules = []; by_id = [] }

  unfoldable pub register : RuleRegistry D → Rule D → RuleRegistry D
  register reg rule = elim (lookup rule.id reg.by_id) [
    | some idx ↦ record reg { rules = set_at reg.rules idx rule }
    | none ↦ record {
      rules = reg.rules ++ rule ∷ [];
      by_id = insert rule.id (length reg.rules) reg.by_id;
    }
  ]

  reindex : ℕ → List (Rule D) → List (Uuid × ℕ) → List (Uuid × ℕ)
  reindex i [] m = m
  reindex i (r ∷ rs) m = reindex (suc i) rs (insert r.id i m)

  unfoldable pub unregister : RuleRegistry D → Uuid → RuleRegistry D
  unfolding reindex
  unregister reg id = elim (lookup id reg.by_id) [
    | none ↦ reg
    | some idx ↦
        (let rules = remove_at reg.rules idx in
          record { rules = rules; by_id = reindex 0 rules [] })
  ]

  unfoldable pub get : RuleRegistry D → Uuid → Option (Rule D)
  get reg id = elim (lookup id reg.by_id) [ none ↦ none | some i ↦ get_elem? reg.rules i ]

  by_policy : Option String → Violation D → RuleVerdict D
  by_policy none base = RuleVerdict.warn base
  by_policy (some policy) base =
      if same_string policy "soft_fail"
      then RuleVerdict.soft_fail base
      else if same_string policy "fail"
      then RuleVerdict.fail base
      else if same_string policy "gap_flagged"
      then RuleVerdict.gap_flagged base
      else RuleVerdict.warn base

  -- `failure_verdict`
  unfoldable pub failure_verdict : Rule D → Violation D → RuleVerdict D
  unfolding by_policy
  failure_verdict rule base = by_policy rule.failure_policy base

  -- `catch_unwind`: an error and a panic have the same effect.
  unfoldable pub verdict_of : Rule D → Uuid → RuleContext D → RuleVerdict D
  unfolding failure_verdict
  verdict_of rule fresh ctx = elim (rule.evaluate fresh ctx) [
    | ok v ↦ v
    | err e ↦
        failure_verdict rule
          (build_violation fresh rule.name rule.kind ctx ViolationSeverity.warning)
  ]

  -- `fresh` gives the UUID that is drawn for the violation of a rule.
  unfoldable pub report_of : (Uuid → Uuid) → RuleContext D → Rule D → RuleReport D
  unfolding verdict_of
  report_of fresh ctx rule = record {
    rule_name = rule.name;
    verdict = verdict_of rule (fresh rule.id) ctx;
    scope = rule.scope;
    priority = rule.priority;
  }

  unfoldable pub run_rules : (Uuid → Uuid) → RuleContext D → List (Rule D) → List (RuleReport D)
  unfolding runs_in report_of
  run_rules fresh ctx [] = []
  run_rules fresh ctx (rule ∷ rules) =
      let rest = run_rules fresh ctx rules in
      if rule.is_enabled ctx && runs_in ctx.kind rule.scope
      then report_of fresh ctx rule ∷ rest
      else rest

  unfoldable pub evaluate :
      (Uuid → Uuid) → RuleRegistry D → RuleContext D → Result (List (RuleReport D))
  unfolding run_rules
  evaluate fresh reg ctx = ok (run_rules fresh ctx reg.rules)
