-- ===== src/Rules/Examples.antt =====
-- The drawdown rules and the registry on concrete contexts.
use propfirm_engine.Base.{
  ℕ, ◌≡◌, refl, true, false, not, ◌&&◌, ◌==◌, List, [], ◌∷◌, Option, some, none, ok, is_ok, arith,
  if◌then◌else◌,
}
use propfirm_engine.Decimal.Scaled.{Scaled, scaled_decimal, Scaled-IsOrdered}
use propfirm_engine.Fixtures.{account, money, noon}
use propfirm_engine.Core.Ids.{Uuid}
use propfirm_engine.Core.Account.{Account}
use propfirm_engine.Rules.Config.{from_plan}
use propfirm_engine.Rules.Verdict.{terminates}
use propfirm_engine.Rules.Context.{
  RuleContext, RuleContextKind, broker_reported, require_started, require_broker_equity,
}
use propfirm_engine.Rules.MaxDrawdown
use propfirm_engine.Rules.MaxDrawdown.Laws.{
  terminates-evaluate, evaluate_mono, broker_below, breach_line,
}
use propfirm_engine.Rules.DailyDrawdown
use propfirm_engine.Rules.DailyDrawdown.Laws.{
  terminates-evaluate_daily, applies, exceeds, divides_by_zero,
}
use propfirm_engine.Rules.Registry.{Rule, RuleRegistry, empty, register, unregister, get}
use propfirm_engine.Rules.Registry.Index.{IsIndexed, get-register}
use propfirm_engine.Rules.Registry.Removal.{get-unregister}
use propfirm_engine.Rules.Registry.Estimates.{max_drawdown_rule}

abbrev context : Account Scaled → Scaled → RuleContext Scaled
context a equity = record {
  account = a;
  open_positions = [];
  today_trades = [];
  pending_order = none;
  latest_trade = none;
  latest_tick = none;
  recent_events = [];
  cross_reference_trades = [];
  instruments = [];
  server_time = noon 10;
  kind = RuleContextKind.on_tick;
  rule_config = from_plan a.plan;
  equity_input = broker_reported equity (money 100000);
}

terminates-evaluate_example :
    let ctx = context account (money 89000) in
    (is_ok (MaxDrawdown.evaluate none 50 ctx) ≡ true)
    × (terminates (MaxDrawdown.evaluate none 50 ctx) ≡ (
        not (scaled_decimal.le (MaxDrawdown.effective_pct none account) scaled_decimal.nought)
        && (require_started ctx
            && broker_below (require_broker_equity ctx) account (breach_line none account))))
terminates-evaluate_example = terminates-evaluate none 50 (context account (money 89000))

-- Below the floor of 90000 by more than a cent, and not.
breach_at_89000 : terminates (MaxDrawdown.evaluate none 50 (context account (money 89000))) ≡ true
unfolding MaxDrawdown.evaluate propfirm_engine.Rules.Verdict.is_terminating
    propfirm_engine.Base.Int.◌-ℤ◌
breach_at_89000 = refl

none_at_90000 : terminates (MaxDrawdown.evaluate none 50 (context account (money 90000))) ≡ false
unfolding MaxDrawdown.evaluate propfirm_engine.Rules.Verdict.is_terminating
    propfirm_engine.Base.Int.◌-ℤ◌ propfirm_engine.Base.Int.◌+ℤ◌
none_at_90000 = refl

evaluate_mono_example :
    terminates (MaxDrawdown.evaluate none 50 (context account (money 85000))) ≡ true
evaluate_mono_example =
    evaluate_mono Scaled-IsOrdered none 50 (context account (money 100000)) (money 85000)
      (money 89000) (money 100000) refl breach_at_89000

abbrev fallen : Account Scaled
fallen = record account { equity = money 94000 }

terminates-evaluate_daily_example :
    let ctx = context fallen (money 94000) in
    let pair = DailyDrawdown.anchors fallen.plan.daily_loss_type fallen in
    (terminates (DailyDrawdown.evaluate none 50 ctx)
      ≡ (applies none ctx && (not fallen.plan.daily_loss_soft && exceeds pair none fallen)))
    × (is_ok (DailyDrawdown.evaluate none 50 ctx)
        ≡ not (applies none ctx && divides_by_zero pair none fallen))
terminates-evaluate_daily_example = terminates-evaluate_daily none 50 (context fallen (money 94000))

-- A reference of zero makes the rule divide by a limit of zero.
abbrev without_start : Account Scaled
without_start = record account { day_start_equity = money 0; equity = money 0 }

zero_limit_panics : is_ok (DailyDrawdown.evaluate none 50 (context without_start (money 0))) ≡ false
unfolding DailyDrawdown.evaluate propfirm_engine.Base.Int.◌+ℤ◌ propfirm_engine.Base.Int.◌-ℤ◌
zero_limit_panics = refl

abbrev one_rule : RuleRegistry Scaled
one_rule = register empty (max_drawdown_rule none 41)

empty-IsIndexed : IsIndexed (empty {D = Scaled})
unfolding IsIndexed propfirm_engine.Rules.Registry.Index.AreDistinct empty
    propfirm_engine.Rules.Registry.Index.index_of
empty-IsIndexed = (tt, λ id. refl)

get-register_example :
    IsIndexed one_rule
    × ((id : Uuid)
        → get one_rule id
          ≡ (if 41 == id then some (max_drawdown_rule none 41) else get (empty {D = Scaled}) id))
unfolding max_drawdown_rule
get-register_example = get-register empty (max_drawdown_rule none 41) empty-IsIndexed

one_rule-IsIndexed : IsIndexed one_rule
one_rule-IsIndexed = (get-register empty (max_drawdown_rule none 41) empty-IsIndexed).0

get-unregister_example :
    IsIndexed (unregister one_rule 41)
    × ((k : Uuid) → get (unregister one_rule 41) k ≡ (if 41 == k then none else get one_rule k))
get-unregister_example = get-unregister one_rule 41 one_rule-IsIndexed
