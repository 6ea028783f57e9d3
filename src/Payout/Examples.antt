-- ===== src/Payout/Examples.antt =====
-- Payouts of a concrete funded account.
use Prim.Native.Nat.{min}
use propfirm_engine.Core.Ids.{Timestamp}
use propfirm_engine.Base.{
  ℕ, ◌+◌, ◌-◌, ◌≡◌, refl, true, false, List, [], ◌∷◌, some, none, ok, is_ok, arith, ◌⊎◌, ◌↔◌,
  Result, u32_mod,
}
use propfirm_engine.Decimal.Scaled.{Scaled, scaled_decimal, Scaled-IsOrdered, Scaled-IsMonotone}
use propfirm_engine.Fixtures.{funded_account, payout_terms, money, noon, value, value_lem}
use propfirm_engine.Core.Account.{Account}
use propfirm_engine.Core.PayoutConfig.{min_gap}
use propfirm_engine.Payout.{quote_payout, record_payout, trader_share_for, no_profit, is_payable}
use propfirm_engine.Payout.Laws.{
  CycleReached, walk, rejected-quote_payout, trader_share_for_lem, pay_all_lem, pay_all,
  balance_after, mark_after, quote_payout-record_payout,
}

rejected-quote_payout_example :
    let q =
      quote_payout funded_account payout_terms
        (some (noon 10))
        (some (money 100000))
        false
        (noon 20) in
    (q.rejected ≡ none) ↔ (
      (scaled_decimal.le q.profit_basis scaled_decimal.nought ≡ false)
      × (scaled_decimal.lt q.amount payout_terms.minimum_payout ≡ false)
      × CycleReached (min_gap payout_terms.cycle) (some (noon 10)) (noon 20))
rejected-quote_payout_example =
    rejected-quote_payout funded_account payout_terms (some (noon 10)) (some (money 100000)) false
      (noon 20)

-- A first payout of 10000 of profit at 80 %, with the fee of 500.
first_amount :
    (quote_payout funded_account payout_terms none (some (money 100000)) false (noon 20)).amount
    ≡ money 8500
unfolding quote_payout propfirm_engine.Base.Int.◌+ℤ◌ propfirm_engine.Base.Int.◌-ℤ◌
first_amount = refl

trader_share_for_lem_example : trader_share_for payout_terms 5 ≡ walk payout_terms.tiers 5
trader_share_for_lem_example = trader_share_for_lem payout_terms 5

abbrev payout : Result (Account Scaled)
payout = record_payout funded_account (money 8500) (money 500) (noon 20)

payout_accepted : is_ok payout ≡ true
unfolding record_payout
payout_accepted = refl

abbrev paid : Account Scaled
paid = value payout payout_accepted

abbrev payouts : List (Scaled × Scaled × Timestamp)
payouts = (money 8500, money 500, noon 20) ∷ (money 800, money 0, noon 40) ∷ []

pay_all_lem_example :
    (b : Account Scaled) × (pay_all funded_account payouts ≡ ok b)
    × (is_payable b.status ≡ true)
    × (b.payout_count ≡ min (funded_account.payout_count + 2) (u32_mod - 1))
    × (b.balance ≡ balance_after (money 110000) payouts)
    × (b.balance_at_last_payout
        ≡ mark_after funded_account.balance_at_last_payout (money 110000) payouts)
    × (b.refund_used ≡ funded_account.refund_used)
    × (b.equity ≡ money 110000)
pay_all_lem_example = pay_all_lem funded_account payouts refl (omega arith)

-- The account has earned 7000 since, but is not above 110000 again.
abbrev recovered : Account Scaled
recovered = record paid { balance = money 109000 }

quote_payout-record_payout_example :
    (quote_payout recovered payout_terms paid.last_payout_at
      (some paid.balance_at_last_payout)
      false
      (noon 60)).rejected
    ≡ some no_profit
quote_payout-record_payout_example =
    quote_payout-record_payout Scaled-IsOrdered Scaled-IsMonotone funded_account paid recovered
      (money 8500) (money 500) (noon 20) (noon 60) payout_terms false
      (value_lem payout payout_accepted) refl
