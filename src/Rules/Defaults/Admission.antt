-- ===== src/Rules/Defaults/Admission.antt =====
-- What an order that the default rules let through satisfies.
use propfirm_engine.Base.{
  ℕ, ◌+◌, ◌<◌, Bool, true, false, not, ◌||◌, List, [], ◌∷◌, Option, none, some, is_some, ok, ◌≡◌,
  refl, sym, ap, ◌∙◌, subst, arith, any, IsOneOf, Bool-cases, length, leb, u32_mod, Option-cases,
  inl, inr,
}
use propfirm_engine.Decimal.{Decimal}
use propfirm_engine.Core.Ids.{Uuid}
use propfirm_engine.Core.Calendar.{Calendar}
use propfirm_engine.Core.Order.{Order}
use propfirm_engine.Core.Plan.{ChallengePlan}
use propfirm_engine.Rules.Verdict
use propfirm_engine.Rules.Verdict.{RuleReport, EvaluationScope}
use propfirm_engine.Rules.Context.{RuleContext, RuleContextKind, open_position_count, is_opening}
use propfirm_engine.Rules.Registry.{
  Rule, evaluate, run_rules, report_of, verdict_of, runs_in, empty,
}
use propfirm_engine.Rules.Library.{
  Outside, max_open_positions_rule, max_daily_trades_rule, stop_loss_required_rule,
}
use propfirm_engine.Rules.Params.{pack_count}
use propfirm_engine.Rules.Evaluators.MaxOpenPositions
use propfirm_engine.Rules.Evaluators.MaxDailyTrades
use propfirm_engine.Rules.Evaluators.StopLossRequired
use propfirm_engine.Rules.Defaults.{default_rules, with_default_rules, with_default_rules_for_plan}
use propfirm_engine.Rules.Defaults.Distinct.{rules-register_all, empty-IsIndexed}
use propfirm_engine.Rules.Defaults.Names.{rule_names, keeps_apart}
use propfirm_engine.Rules.Defaults.Plans.{
  evaluate-with_default_rules_for_plan, AreDistinct-default_rules,
}
use propfirm_engine.Engine.Decision.{is_terminating, from_reports}
use propfirm_engine.Engine.Decision.Order.{is_terminating-from_reports}

-- A number that a limit allows; no limit allows any number.
abbrev pub within : Option ℕ → ℕ → Bool
within none n = true
within (some most) n = leb n most

module _ {D : Type 0} where
  -- A rule that is enabled and runs in the context does not terminate, when no report does.
  spared_rule :
      (fresh : Uuid → Uuid) (ctx : RuleContext D) (rule : Rule D) (rules : List (Rule D))
      → any (λ r. Verdict.is_terminating r.verdict) (run_rules fresh ctx rules) ≡ false
      → IsOneOf rule rules
      → rule.is_enabled ctx ≡ true
      → runs_in ctx.kind rule.scope ≡ true
      → Verdict.is_terminating (verdict_of rule (fresh rule.id) ctx) ≡ false
  unfolding run_rules report_of
  spared_rule fresh ctx rule [] h e on runs = elim e [ ]
  spared_rule fresh ctx rule (r ∷ rules) h (inl e) on runs =
      subst (λ x. Verdict.is_terminating (verdict_of x (fresh x.id) ctx) ≡ false) (sym e)
        (let enabled : r.is_enabled ctx ≡ true = ap (λ x. x.is_enabled ctx) (sym e) ∙ on in
          let running : runs_in ctx.kind r.scope ≡ true =
            ap (λ x. runs_in ctx.kind x.scope) (sym e) ∙ runs in
          ground (arith, h, enabled, running))
  spared_rule fresh ctx rule (r ∷ rules) h (inr e) on runs =
      spared_rule fresh ctx rule rules (ground (arith, h)) e on runs

module _ {D : Type 0} ⦃d : Decimal D⦄ ⦃c : Calendar⦄ (outside : Outside D) where
  module _ (fresh : Uuid) (ctx : RuleContext D) (order : Order D)
      (asked : ctx.pending_order ≡ some order) (opens : is_opening order ≡ true) where
    judged_positions :
        (most : ℕ)
        → open_position_count ctx + 1 < u32_mod
        → Verdict.is_terminating (MaxOpenPositions.judge fresh ctx most (some order)) ≡ false
        → leb (open_position_count ctx + 1) most ≡ true
    unfolding MaxOpenPositions.judge Verdict.is_terminating
    judged_positions most small h = ground (arith, h, opens)

    verdict_positions :
        (most : ℕ)
        → ctx.account.plan.max_open_positions ≡ some most
        → verdict_of (max_open_positions_rule outside none) fresh ctx
          ≡ MaxOpenPositions.judge fresh ctx most (some order)
    unfolding verdict_of max_open_positions_rule MaxOpenPositions.evaluate
        MaxOpenPositions.effective_max pack_count open_position_count
    verdict_positions most e = rw e (rw asked refl)

    within_positions :
        (limit : Option ℕ)
        → ctx.account.plan.max_open_positions ≡ limit
        → open_position_count ctx + 1 < u32_mod
        → Verdict.is_terminating (verdict_of (max_open_positions_rule outside none) fresh ctx)
          ≡ false
        → within limit (open_position_count ctx + 1) ≡ true
    within_positions none e small h = refl
    within_positions (some most) e small h =
        judged_positions most small (ap Verdict.is_terminating (sym (verdict_positions most e)) ∙ h)

    judged_trades :
        (most : ℕ)
        → length ctx.today_trades + 1 < u32_mod
        → Verdict.is_terminating (MaxDailyTrades.judge fresh ctx most (some order)) ≡ false
        → leb (length ctx.today_trades + 1) most ≡ true
    unfolding MaxDailyTrades.judge Verdict.is_terminating
    judged_trades most small h = ground (arith, h, opens)

    verdict_trades :
        (most : ℕ)
        → ctx.account.plan.max_daily_trades ≡ some most
        → verdict_of (max_daily_trades_rule outside none) fresh ctx
          ≡ MaxDailyTrades.judge fresh ctx most (some order)
    unfolding verdict_of max_daily_trades_rule MaxDailyTrades.evaluate MaxDailyTrades.effective_max
        pack_count
    verdict_trades most e = rw e (rw asked refl)

    within_trades :
        (limit : Option ℕ)
        → ctx.account.plan.max_daily_trades ≡ limit
        → length ctx.today_trades + 1 < u32_mod
        → Verdict.is_terminating (verdict_of (max_daily_trades_rule outside none) fresh ctx) ≡ false
        → within limit (length ctx.today_trades + 1) ≡ true
    within_trades none e small h = refl
    within_trades (some most) e small h =
        judged_trades most small (ap Verdict.is_terminating (sym (verdict_trades most e)) ∙ h)

    within_stop :
        Verdict.is_terminating (StopLossRequired.judge fresh ctx (some order)) ≡ false
        → is_some order.stop_loss ≡ true
    unfolding StopLossRequired.judge Verdict.is_terminating
    within_stop h = ground (arith, h, opens)

    verdict_stop :
        ctx.account.plan.require_stop_loss ≡ true
        → verdict_of (stop_loss_required_rule outside none) fresh ctx
          ≡ StopLossRequired.judge fresh ctx (some order)
    unfolding verdict_of stop_loss_required_rule StopLossRequired.evaluate StopLossRequired.judge
    verdict_stop e = rw e (rw asked refl)

  module _ (fresh : Uuid → Uuid) (ctx : RuleContext D) (order : Order D)
      (asked : ctx.pending_order ≡ some order) (opens : is_opening order ≡ true) where
    bound_positions :
        ctx.kind ≡ RuleContextKind.on_order_submit
        → any (λ r. Verdict.is_terminating r.verdict) (run_rules fresh ctx (default_rules outside))
          ≡ false
        → open_position_count ctx + 1 < u32_mod
        → within ctx.account.plan.max_open_positions (open_position_count ctx + 1) ≡ true
    unfolding default_rules max_open_positions_rule runs_in MaxOpenPositions.is_enabled
    bound_positions kind h small = elim (Option-cases ctx.account.plan.max_open_positions) [
      | inl e ↦ ap (λ l. within l (open_position_count ctx + 1)) e
      | inr (most, e) ↦
          (let rule = max_open_positions_rule outside none in
            ap (λ l. within l (open_position_count ctx + 1)) e
            ∙ within_positions (fresh rule.id) ctx order asked opens (some most) e small (
                spared_rule fresh ctx rule (default_rules outside) h
                  (inr (inr (inr (inr (inr (inr (inr (inr (inr (inr (inr (inl refl))))))))))))
                  (ap is_some e) (ap (λ k. runs_in k EvaluationScope.pre_trade) kind)))
    ]

    bound_trades :
        ctx.kind ≡ RuleContextKind.on_order_submit
        → any (λ r. Verdict.is_terminating r.verdict) (run_rules fresh ctx (default_rules outside))
          ≡ false
        → length ctx.today_trades + 1 < u32_mod
        → within ctx.account.plan.max_daily_trades (length ctx.today_trades + 1) ≡ true
    unfolding default_rules max_daily_trades_rule runs_in MaxDailyTrades.is_enabled
    bound_trades kind h small = elim (Option-cases ctx.account.plan.max_daily_trades) [
      | inl e ↦ ap (λ l. within l (length ctx.today_trades + 1)) e
      | inr (most, e) ↦
          (let rule = max_daily_trades_rule outside none in
            ap (λ l. within l (length ctx.today_trades + 1)) e
            ∙ within_trades (fresh rule.id) ctx order asked opens (some most) e small (
                spared_rule fresh ctx rule (default_rules outside) h
                  (inr (inr (inr (inr (inr (inr (inr (inr (inr (inr (inr (inr (inl refl)))))))))))))
                  (ap is_some e) (ap (λ k. runs_in k EvaluationScope.pre_trade) kind)))
    ]

    bound_stop :
        ctx.kind ≡ RuleContextKind.on_order_submit
        → any (λ r. Verdict.is_terminating r.verdict) (run_rules fresh ctx (default_rules outside))
          ≡ false
        → not ctx.account.plan.require_stop_loss || is_some order.stop_loss ≡ true
    unfolding default_rules stop_loss_required_rule runs_in StopLossRequired.is_enabled
    bound_stop kind h = elim (Bool-cases ctx.account.plan.require_stop_loss) [
      | inr e ↦ ap (λ b. not b || is_some order.stop_loss) e
      | inl e ↦
          (let rule = stop_loss_required_rule outside none in
            ap (λ b. not b || is_some order.stop_loss) e
            ∙ within_stop (fresh rule.id) ctx order asked opens (
                ap Verdict.is_terminating
                  (sym (verdict_stop (fresh rule.id) ctx order asked opens e))
                ∙ spared_rule fresh ctx rule (default_rules outside) h
                    (inr (
                      inr (
                        inr (
                          inr (
                            inr (
                              inr (
                                inr (
                                  inr (
                                    inr (
                                      inr (
                                        inr (
                                          inr (
                                            inr
                                              (inr (inr (inr (inr (inr (inl refl)))))))))))))))))))
                    e (ap (λ k. runs_in k EvaluationScope.pre_trade) kind)))
    ]

  module _ (apart : keeps_apart outside.named rule_names ≡ true) where
    reports-default_rules :
        (fresh : Uuid → Uuid) (plan : ChallengePlan D) (ctx : RuleContext D)
        (reports : List (RuleReport D))
        → ctx.account.plan ≡ plan
        → evaluate fresh (with_default_rules_for_plan outside plan) ctx ≡ ok reports
        → run_rules fresh ctx (default_rules outside) ≡ reports
    unfolding evaluate with_default_rules empty
    reports-default_rules fresh plan ctx reports same h =
        let (every, _) =
          rules-register_all empty (default_rules outside) (empty-IsIndexed D)
            (AreDistinct-default_rules outside apart) in
        let all : evaluate fresh (with_default_rules outside) ctx ≡ ok reports =
          sym (evaluate-with_default_rules_for_plan outside apart fresh plan ctx same) ∙ h in
        ground (arith, all, ap (run_rules fresh ctx) every)

    -- When the decision on an order that opens a position does not terminate the account, the
    -- order is within the limits of the plan: the open positions with the one it opens, and the
    -- trades of the day with it, are at most the numbers that the plan allows, if it limits them,
    -- and the order has a stop loss, if the plan requires one. The rules are the default rules of the
    -- plan of the account, with different ids, and the counts do not reach the greatest u32.
    pub within-evaluate :
        (fresh : Uuid → Uuid) (plan : ChallengePlan D) (ctx : RuleContext D) (order : Order D)
        (reports : List (RuleReport D))
        → ctx.account.plan ≡ plan
        → ctx.kind ≡ RuleContextKind.on_order_submit
        → ctx.pending_order ≡ some order
        → is_opening order ≡ true
        → open_position_count ctx + 1 < u32_mod
        → length ctx.today_trades + 1 < u32_mod
        → evaluate fresh (with_default_rules_for_plan outside plan) ctx ≡ ok reports
        → is_terminating (from_reports reports).kind ≡ false
        → (within plan.max_open_positions (open_position_count ctx + 1) ≡ true)
          × (within plan.max_daily_trades (length ctx.today_trades + 1) ≡ true)
          × (not plan.require_stop_loss || is_some order.stop_loss ≡ true)
    within-evaluate fresh plan ctx order reports same kind asked opens few_positions few_trades h
          mild =
        let harmless : any (λ r. Verdict.is_terminating r.verdict)
              (run_rules fresh ctx (default_rules outside))
            ≡ false =
          ap (any (λ r. Verdict.is_terminating r.verdict))
            (reports-default_rules fresh plan ctx reports same h)
          ∙ sym (is_terminating-from_reports reports)
          ∙ mild in
        (
          subst (λ p. within p.max_open_positions (open_position_count ctx + 1) ≡ true) same
              (bound_positions fresh ctx order asked opens kind harmless few_positions),
          subst (λ p. within p.max_daily_trades (length ctx.today_trades + 1) ≡ true) same
              (bound_trades fresh ctx order asked opens kind harmless few_trades),
          subst (λ p. not p.require_stop_loss || is_some order.stop_loss ≡ true) same
              (bound_stop fresh ctx order asked opens kind harmless),
        )
