-- ===== src/Rules/Pack.antt =====
-- rulepack.rs: rule packs as data. The content hash and the JSON text are left out.
use propfirm_engine.Base.{
  ℕ, String, Bool, true, false, ◌||◌, List, [], ◌∷◌, Option, none, some, same_string, any, find,
  is_empty, Result, ok, invalid_config, refuse_if, ◌>>◌,
}
use propfirm_engine.Base.Int.{ℤ, pos}
use propfirm_engine.Decimal.{Decimal}
use propfirm_engine.Core.Ids.{Uuid, Timestamp}
use propfirm_engine.Core.Plan.{ChallengePlan, LossReference}
use propfirm_engine.Rules.Params.{RuleParams, RuleUnit, percent}

pub data PackLifecycle : Type 0 where
  draft active superseded : PackLifecycle

pub data RuleBasis : Type 0 where
  static trailing eod_trailing intraday_trail : RuleBasis

pub record RuleEntry (D : Type 0) : Type 0 where
  pub id : String
  pub kind : String
  pub basis : RuleBasis
  pub unit : RuleUnit
  pub value : D
  pub tolerance_cents : Option ℤ
  pub early_warning_pct : Option D
  pub priority : ℕ
  pub enabled : Bool
  pub params_json : String
  pub severity : Option String
  pub failure_policy : Option String

pub record RulePack (D : Type 0) : Type 0 where
  pub id : String
  pub version : ℕ
  pub tenant_id : Uuid
  pub lifecycle : PackLifecycle
  pub effective_from : Timestamp
  pub superseded_by : Option String
  pub description : String
  pub rules : List (RuleEntry D)
  pub initial_balance : D
  pub leverage : ℕ
  pub profit_target_pct : D

reference_of : RuleBasis → LossReference
reference_of static = LossReference.static
reference_of trailing = LossReference.trailing
reference_of eod_trailing = LossReference.eod_trailing
reference_of intraday_trail = LossReference.intraday_trail

module _ {D : Type 0} where
  -- `RuleParams::from_entry`
  unfoldable pub from_entry : RuleEntry D → RuleParams D
  unfolding reference_of
  from_entry e = record {
    value = some e.value;
    unit = some e.unit;
    basis = some (reference_of e.basis);
    tolerance_cents = e.tolerance_cents;
    priority = some e.priority;
    early_warning_pct = e.early_warning_pct;
    enabled = e.enabled;
    params_json = e.params_json;
    severity = e.severity;
    failure_policy = e.failure_policy;
  }

  has_duplicates : List (RuleEntry D) → Bool
  has_duplicates [] = false
  has_duplicates (e ∷ es) = any (λ x. same_string x.id e.id) es || has_duplicates es

  -- `RulePack::validate`
  unfoldable pub validate : RulePack D → Result (Unit {0})
  unfolding has_duplicates
  validate pack = do
    refuse_if (same_string pack.id "") invalid_config
    refuse_if (is_empty pack.rules) invalid_config
    refuse_if (has_duplicates pack.rules) invalid_config
    ok tt

  unfoldable pub get : RulePack D → String → Option (RuleEntry D)
  get pack id = find (λ r. same_string r.id id) pack.rules

  -- The id is the text "plan-" with the id of the account, the time the wall clock.
  unfoldable pub synthetic_from_plan : String → Uuid → ChallengePlan D → Timestamp → RulePack D
  synthetic_from_plan id tenant_id plan now = record {
    id = id;
    version = 1;
    tenant_id = tenant_id;
    lifecycle = active;
    effective_from = now;
    superseded_by = none;
    description = "Synthetic pack derived from account plan";
    rules = [];
    initial_balance = plan.initial_balance_money;
    leverage = plan.leverage;
    profit_target_pct = plan.profit_target_pct;
  }

module _ {D : Type 0} ⦃d : Decimal D⦄ where
  -- `RuleEntry::new`
  unfoldable pub new_entry : String → String → D → RuleEntry D
  new_entry id kind value = record {
    id = id;
    kind = kind;
    basis = static;
    unit = percent;
    value = value;
    tolerance_cents = some (pos 1);
    early_warning_pct = some (d.new (pos 8) 1);
    priority = 100;
    enabled = true;
    params_json = "{}";
    severity = none;
    failure_policy = none;
  }
