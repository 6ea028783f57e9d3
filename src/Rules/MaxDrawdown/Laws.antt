-- ===== src/Rules/MaxDrawdown/Laws.antt =====
-- When the maximum drawdown rule liquidates, and what can never trigger it.
use propfirm_engine.Base.{
  subst, sym, Option-cases, ◌&&◌, is_ok, inl, inr, ◌≡◌, Bool, true, false, not, Option, none, some,
  arith, if◌then◌else◌,
}
use propfirm_engine.Decimal.{Decimal, IsOrdered, IsMonotone, ◌≼◌}
use propfirm_engine.Core.Ids.{Uuid}
use propfirm_engine.Core.Plan.{eod_trailing}
use propfirm_engine.Core.Account.{Account}
use propfirm_engine.Rules.Verdict.{is_terminating, terminates}
use propfirm_engine.Rules.Params.{RuleParams, rule_tolerance}
use propfirm_engine.Rules.Context.{
  RuleContext, broker_reported, require_started, require_broker_equity,
}
use propfirm_engine.Rules.MaxDrawdown.{evaluate, effective_pct, effective_basis, floor_of, judge}

module _ {D : Type 0} ⦃d : Decimal D⦄ where
  -- The floor of a context less the tolerance.
  abbrev pub breach_line : Option (RuleParams D) → Account D → D
  breach_line params a =
      d.sub (floor_of (effective_basis params a) (effective_pct params a) a) (rule_tolerance params)

  -- What is compared with the floor: the balance, or the equity of the broker.
  abbrev pub measured : Account D → D → D
  measured a equity = if a.plan.drawdown_on_balance then a.balance else equity

  terminating-judge :
      (params : Option (RuleParams D)) (id : Uuid) (ctx : RuleContext D) (equity : D)
      → is_terminating (judge params id ctx equity)
        ≡ d.lt (measured ctx.account equity) (breach_line params ctx.account)
  unfolding judge is_terminating
  terminating-judge params id ctx equity = ground arith

  -- Whether the equity is the broker's own and what is measured lies below the line.
  abbrev pub broker_below : Option D → Account D → D → Bool
  broker_below none a line = false
  broker_below (some equity) a line = d.lt (measured a equity) line

  -- The rule always gives a verdict. The verdict terminates the account exactly when the limit is
  -- positive, the account has started, the equity is the broker's own, and the balance or equity
  -- is below the floor by more than the tolerance.
  pub terminates-evaluate :
      (params : Option (RuleParams D)) (id : Uuid) (ctx : RuleContext D)
      → (is_ok (evaluate params id ctx) ≡ true)
        × (terminates (evaluate params id ctx) ≡ (
            not (d.le (effective_pct params ctx.account) d.nought)
            && (require_started ctx
                && broker_below
                    (require_broker_equity ctx)
                    ctx.account
                    (breach_line params ctx.account))))
  unfolding evaluate is_terminating
  terminates-evaluate params id ctx = elim (Option-cases (require_broker_equity ctx)) [
    | inl e ↦ ground (arith, e)
    | inr (equity, e) ↦ ground (arith, e, terminating-judge params id ctx equity)
  ]

  module _ (laws : IsOrdered D) where
    lt_mono : (x y line : D) → x ≼ y → d.lt y line ≡ true → d.lt x line ≡ true
    lt_mono x y line h k =
        ground (arith, laws.lt-eq-not-le x line, laws.lt-eq-not-le y line, laws.le_trans line x y)

    -- A report of more equity never makes the verdict worse: if the rule terminates at a broker
    -- equity, it terminates at every lower one.
    pub evaluate_mono :
        (params : Option (RuleParams D)) (id : Uuid) (ctx : RuleContext D) (low high balance : D)
        → low ≼ high
        → terminates
            (evaluate params id (record ctx { equity_input = broker_reported high balance }))
          ≡ true
        → terminates
            (evaluate params id (record ctx { equity_input = broker_reported low balance }))
          ≡ true
    evaluate_mono params id ctx low high balance h k =
        let at = λ (e : D). record ctx { equity_input = broker_reported e balance } in
        let (_, worse) = terminates-evaluate params id (at low) in
        let (_, better) = terminates-evaluate params id (at high) in
        ground (arith, worse, better, lt_mono low high (breach_line params ctx.account) h)

    min_le : (x y : D) → d.min x y ≼ y
    min_le x y = ground (arith, laws.min_lem x y, laws.lt-eq-not-le y x, laws.le_refl y)

    floor_locked :
        (pct : D) (a : Account D)
        → a.plan.eod_trail_locks_at_start ≡ true
        → floor_of eod_trailing pct a ≼ a.initial_balance
    unfolding floor_of
    floor_locked pct a locks =
        ground (
          arith,
          min_le (d.sub a.day_start_balance (d.mul pct a.initial_balance)) a.initial_balance,
        )

    module _ (mono : IsMonotone D) where
      -- With an end-of-day trail that locks at the start, a tolerance that is not negative, and a
      -- balance or equity of at least the initial balance, the rule never terminates the account.
      pub locked_breakeven :
          (params : Option (RuleParams D)) (id : Uuid) (ctx : RuleContext D) (equity balance : D)
          → effective_basis params ctx.account ≡ eod_trailing
          → ctx.account.plan.eod_trail_locks_at_start ≡ true
          → d.nought ≼ rule_tolerance params
          → ctx.equity_input ≡ broker_reported equity balance
          → ctx.account.initial_balance ≼ measured ctx.account equity
          → terminates (evaluate params id ctx) ≡ false
      locked_breakeven params id ctx equity balance basis locks tol input high =
          let a = ctx.account in
          let floor = floor_of (effective_basis params a) (effective_pct params a) a in
          let low : floor ≼ a.initial_balance =
            subst (λ b. floor_of b (effective_pct params a) a ≼ a.initial_balance) (sym basis)
              (floor_locked (effective_pct params a) a locks) in
          let line = breach_line params a in
          let under : line ≼ floor =
            subst (λ x. line ≼ x) (mono.sub_nought floor)
              (mono.sub_anti d.nought (rule_tolerance params) floor tol) in
          let safe : line ≼ measured a equity =
            laws.le_trans line floor (measured a equity) under
              (laws.le_trans floor a.initial_balance (measured a equity) low high) in
          let (_, same) = terminates-evaluate params id ctx in
          ground (arith, same, safe, laws.lt-eq-not-le (measured a equity) line, input)
