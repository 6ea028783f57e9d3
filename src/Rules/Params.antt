-- ===== src/Rules/Params.antt =====
-- rules/params.rs and rules/traits.rs: the parameters that a rule takes from a pack entry, and its
-- tolerance.
use propfirm_engine.Base.{
  ◌&&◌, is_some, Result, ok, err, rule_eval, invalid_config, ok_or, ◌>>=◌, String, ℕ, Bool, true,
  false, not, Option, none, some, unwrap_or, if◌then◌else◌, ◌==◌, ◌+◌,
}
use propfirm_engine.Base.Int.{ℤ, pos, pos_part, neg_part}
use propfirm_engine.Decimal.{Decimal}
use propfirm_engine.Core.Plan.{LossReference}

-- rulepack.rs: `RuleUnit`.
pub data RuleUnit : Type 0 where
  percent money : RuleUnit

pub record RuleParams (D : Type 0) : Type 0 where
  pub value : Option D
  pub unit : Option RuleUnit
  pub basis : Option LossReference
  pub tolerance_cents : Option ℤ
  pub priority : Option ℕ
  pub early_warning_pct : Option D
  pub enabled : Bool
  pub params_json : String
  pub severity : Option String
  pub failure_policy : Option String

-- `self.params.as_ref().and_then(f)`
abbrev pub and_then {ℓ κ} : {A : Type ℓ} {B : Type κ} → Option A → (A → Option B) → Option B
and_then none f = none
and_then (some a) f = f a

-- `matches!(unit, Some(Money))`
abbrev pub is_money : Option RuleUnit → Bool
is_money (some RuleUnit.money) = true
is_money _ = false

-- Whether a pack entry turned the rule off.
abbrev pub is_disabled : {D : Type 0} → Option (RuleParams D) → Bool
is_disabled none = false
is_disabled (some p) = not p.enabled

module _ {D : Type 0} ⦃d : Decimal D⦄ where
  -- `tolerance_money`, from a number of cents.
  unfoldable pub tolerance_money : ℤ → D
  tolerance_money cents =
      if pos_part cents + neg_part cents == 0
      then d.nought
      else d.div (d.new cents 0) (d.new (pos 100) 0)

  -- The tolerance of a rule: one cent unless the pack entry says otherwise.
  unfoldable pub rule_tolerance : Option (RuleParams D) → D
  unfolding tolerance_money
  rule_tolerance params =
      tolerance_money (unwrap_or (and_then params (λ p. p.tolerance_cents)) (pos 1))

  -- The share of a limit at which a rule warns: 0.8 unless the pack entry says otherwise.
  unfoldable pub rule_warn_pct : Option (RuleParams D) → D
  rule_warn_pct params = unwrap_or (and_then params (λ p. p.early_warning_pct)) (d.new (pos 8) 1)

-- `value`, of an entry that is enabled.
abbrev pub enabled_value : {D : Type 0} → RuleParams D → Option D
enabled_value p = if p.enabled then p.value else none

-- `p.enabled && p.value.is_some()`
abbrev pub has_value : {D : Type 0} → RuleParams D → Bool
has_value p = p.enabled && is_some p.value

-- `map_err(|e| Error::RuleEval(..))`
abbrev pub as_rule_eval {ℓ} : {A : Type ℓ} → Result A → Result A
as_rule_eval (ok a) = ok a
as_rule_eval (err _) = err rule_eval

module _ {D : Type 0} ⦃d : Decimal D⦄ where
  -- `effective_money`; no value is no limit.
  unfoldable pub effective_money : RuleParams D → D → Option D
  effective_money p reference = elim p.value [
    | none ↦ none
    | some v ↦ some (if is_money p.unit then v else d.mul v reference)
  ]

  -- `effective_pct` and `effective_count`
  unfoldable pub effective_pct : RuleParams D → D → Result D
  effective_pct p reference = ok_or p.value invalid_config >>= λ v.
      if is_money p.unit
      then if d.is_zero reference then err invalid_config else ok (d.div v reference)
      else ok v

  unfoldable pub effective_count : RuleParams D → Result D
  effective_count p = ok_or p.value invalid_config

  count_of : Option D → Result (Option ℕ)
  count_of none = ok none
  count_of (some v) = ok_or (d.to_u32 v) invalid_config >>= λ n. ok (some n)

  -- The count that limits a rule: of the pack entry if there is one, else of the plan.
  unfoldable pub pack_count : Option (RuleParams D) → Option ℕ → Result (Option ℕ)
  unfolding count_of
  pack_count none of_plan = ok of_plan
  pack_count (some p) of_plan = count_of (enabled_value p)
