-- ===== src/Rules/DailyDrawdown/Laws.antt =====
-- When the daily drawdown rule terminates an account, and when it gives no verdict.
use propfirm_engine.Base.{
  ◌≡◌, Bool, false, not, ◌&&◌, Option, none, some, is_some, is_ok, Option-cases, inl, inr, arith,
}
use propfirm_engine.Decimal.{Decimal}
use propfirm_engine.Core.Ids.{Uuid}
use propfirm_engine.Core.Account.{Account}
use propfirm_engine.Rules.Verdict.{is_terminating, terminates}
use propfirm_engine.Rules.Params.{RuleParams, rule_tolerance, rule_warn_pct}
use propfirm_engine.Rules.Context.{RuleContext, require_started, require_broker_equity}
use propfirm_engine.Rules.DailyDrawdown.{evaluate, effective_pct, anchors, current, judge}

module _ {D : Type 0} ⦃d : Decimal D⦄ where
  -- The fall from the anchor, and the limit that it is compared with.
  abbrev pub fall : Account D → D → D
  fall a anchor = d.max (d.sub anchor (current a)) d.nought

  abbrev pub limit : Option (RuleParams D) → Account D → D → D
  limit params a reference = d.mul (effective_pct params a) reference

  -- The fall exceeds the limit by more than the tolerance. Without a limit nothing does.
  abbrev pub exceeds : Option (D × D) → Option (RuleParams D) → Account D → Bool
  exceeds none params a = false
  exceeds (some (reference, anchor)) params a =
      d.lt (d.add (limit params a reference) (rule_tolerance params)) (fall a anchor)

  -- The rule comes to its warning with a limit of zero, by which it divides.
  abbrev pub divides_by_zero : Option (D × D) → Option (RuleParams D) → Account D → Bool
  divides_by_zero none params a = false
  divides_by_zero (some (reference, anchor)) params a =
      let l = limit params a reference in
      not (d.lt (d.add l (rule_tolerance params)) (fall a anchor))
      && (d.le (d.mul l (rule_warn_pct params)) (fall a anchor) && d.is_zero l)

  -- A rule that is on, on a started account with the equity of the broker.
  abbrev pub applies : Option (RuleParams D) → RuleContext D → Bool
  applies params ctx =
      not (d.le (effective_pct params ctx.account) d.nought)
      && (require_started ctx && is_some (require_broker_equity ctx))

  judge_lem :
      (params : Option (RuleParams D)) (id : Uuid) (ctx : RuleContext D) (reference anchor : D)
      → (terminates (judge params id ctx reference anchor) ≡ (
          not ctx.account.plan.daily_loss_soft
          && exceeds (some (reference, anchor)) params ctx.account))
        × (is_ok (judge params id ctx reference anchor)
            ≡ not (divides_by_zero (some (reference, anchor)) params ctx.account))
  unfolding judge is_terminating
  judge_lem params id ctx reference anchor = ground arith

  -- The verdict terminates the account exactly when the rule applies, the plan has a daily limit
  -- that is not soft, and the fall of the day exceeds it by more than the tolerance. The rule gives
  -- a verdict exactly when it does not come to its warning with a limit of zero.
  pub terminates-evaluate_daily :
      (params : Option (RuleParams D)) (id : Uuid) (ctx : RuleContext D)
      → let a = ctx.account in
        let pair = anchors a.plan.daily_loss_type a in
        (terminates (evaluate params id ctx)
          ≡ (applies params ctx && (not a.plan.daily_loss_soft && exceeds pair params a)))
        × (is_ok (evaluate params id ctx)
            ≡ not (applies params ctx && divides_by_zero pair params a))
  unfolding evaluate is_terminating
  terminates-evaluate_daily params id ctx =
      let a = ctx.account in
      elim (Option-cases (anchors a.plan.daily_loss_type a)) [
        | inl e ↦ ground (arith, e)
        | inr ((reference, anchor), e) ↦ ground (arith, e, judge_lem params id ctx reference anchor)
      ]
