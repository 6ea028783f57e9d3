-- ===== src/Rules/Defaults/Examples.antt =====
-- The default registry and a pack on a concrete context.
use propfirm_engine.Base.{
  ℕ, suc, String, true, false, List, [], ◌∷◌, none, some, ok, ◌≡◌, refl, any, same_string,
  if◌then◌else◌,
}
use propfirm_engine.Decimal.Scaled.{Scaled, scaled_decimal}
use propfirm_engine.Fixtures.{calendar, account, money, noon, plan, cents}
use propfirm_engine.Rules.Config.{from_plan}
use propfirm_engine.Rules.Context.{RuleContext, RuleContextKind, estimated}
use propfirm_engine.Rules.Verdict.{RuleReport}
use propfirm_engine.Rules.Registry.{RuleRegistry, evaluate, empty, register}
use propfirm_engine.Rules.Library.{Outside, per_trade_max_loss_rule}
use propfirm_engine.Rules.Params.{RuleUnit}
use propfirm_engine.Rules.Registry.Estimates.{max_drawdown_rule}
use propfirm_engine.Rules.Pack.{RuleEntry, RulePack, RuleBasis, PackLifecycle, from_entry}
use propfirm_engine.Rules.Defaults.{
  with_default_rules, with_default_rules_for_plan, build_from_pack,
}
use propfirm_engine.Rules.Defaults.Names.{rule_names}
use propfirm_engine.Rules.Defaults.Plans.{evaluate-with_default_rules_for_plan}
use propfirm_engine.Rules.Defaults.Estimates.{liquidates}
use propfirm_engine.Rules.Defaults.NeverLiquidates.{plan_never_liquidates, pack_never_liquidates}

abbrev position_in : ℕ → String → List String → ℕ
position_in n s [] = n
position_in n s (t ∷ names) =
    let rest = position_in (suc n) s names in if same_string s t then n else rest

abbrev pub outside : Outside Scaled
outside = record {
  named = λ s. position_in 0 s rule_names;
  json_decimal = λ key text. none;
  max_closes = λ text. none;
  lowercase = λ s. s;
  now = noon 10;
}

abbrev pub context : RuleContext Scaled
context = record {
  account = account;
  open_positions = [];
  today_trades = [];
  pending_order = none;
  latest_trade = none;
  latest_tick = none;
  recent_events = [];
  cross_reference_trades = [];
  instruments = [];
  server_time = noon 10;
  kind = RuleContextKind.on_tick;
  rule_config = from_plan account.plan;
  equity_input = estimated (money 80000) (money 80000);
}

evaluate-with_default_rules_for_plan_example :
    evaluate suc (with_default_rules_for_plan outside plan) context
    ≡ evaluate suc (with_default_rules outside) context
evaluate-with_default_rules_for_plan_example =
    evaluate-with_default_rules_for_plan outside refl suc plan context refl

plan_never_liquidates_example :
    (reports : List (RuleReport Scaled)) × (evaluate suc
        (with_default_rules_for_plan outside plan)
        context
      ≡ ok reports)
    × (any (λ r. liquidates r.verdict) reports ≡ false)
plan_never_liquidates_example = plan_never_liquidates outside suc plan context refl

abbrev entry : String → RuleEntry Scaled
entry kind = record {
  id = kind;
  kind = kind;
  basis = RuleBasis.static;
  unit = RuleUnit.percent;
  value = cents 10;
  tolerance_cents = none;
  early_warning_pct = none;
  priority = 5;
  enabled = true;
  params_json = "{}";
  severity = none;
  failure_policy = some "liquidate";
}

-- Two rules, and an entry that is switched off.
abbrev pub pack : RulePack Scaled
pack = record {
  id = "pack";
  version = 1;
  tenant_id = 1;
  lifecycle = PackLifecycle.active;
  effective_from = 0;
  superseded_by = none;
  description = "";
  rules =
      entry "max_drawdown"
      ∷ record (entry "unknown") { enabled = false }
      ∷ entry "per_trade_max_loss"
      ∷ [];
  initial_balance = money 100000;
  leverage = 100;
  profit_target_pct = cents 8;
}

abbrev pub built : RuleRegistry Scaled
built =
    register
      (register empty (
        max_drawdown_rule (some (from_entry (entry "max_drawdown")))
          (outside.named "max_drawdown")))
      (per_trade_max_loss_rule outside (some (from_entry (entry "per_trade_max_loss"))))

pub build_from_pack-pack : build_from_pack outside pack ≡ ok built
unfolding build_from_pack
build_from_pack-pack = refl

pack_never_liquidates_example :
    (reports : List (RuleReport Scaled)) × (evaluate suc built context ≡ ok reports)
    × (any (λ r. liquidates r.verdict) reports ≡ false)
pack_never_liquidates_example =
    pack_never_liquidates outside suc pack built context build_from_pack-pack refl
