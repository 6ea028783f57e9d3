-- ===== src/Payout.antt =====
-- payout.rs: the split tiers, the quote of a payout, and its execution.
pub mod Laws
mod Examples
use Prim.Native.Nat.{min}
use propfirm_engine.Base.{
  ℕ, suc, ◌+◌, ◌-◌, Bool, true, false, not, ◌&&◌, ◌||◌, List, [], ◌∷◌, Option, none, some,
  if◌then◌else◌, ltb, ◌==◌, length, get_elem?, unwrap_or, u32_mod, Result, ok, err, invalid_state,
}
use propfirm_engine.Decimal.{Decimal}
use propfirm_engine.Core.Ids.{Timestamp}
use propfirm_engine.Core.PayoutConfig.{PayoutConfig, SplitTier, min_gap}
use propfirm_engine.Core.Account.{Account, AccountStatus, payout_pending}

pub data PayoutError (D : Type 0) : Type 0 where
  below_minimum : D → PayoutError D
  cycle_not_reached : Timestamp → PayoutError D
  no_profit : PayoutError D

pub record PayoutQuote (D : Type 0) : Type 0 where
  pub profit_basis : D
  pub trader_share : D
  pub fee_refund : D
  pub amount : D
  pub rejected : Option (PayoutError D)

-- `u32::saturating_add(1)`
abbrev pub saturating_suc : ℕ → ℕ
saturating_suc n = min (n + 1) (u32_mod - 1)

abbrev pub is_payable : AccountStatus → Bool
is_payable AccountStatus.funded = true
is_payable payout_pending = true
is_payable _ = false

abbrev settled : AccountStatus → AccountStatus
settled payout_pending = AccountStatus.funded
settled s = s

module _ {D : Type 0} ⦃d : Decimal D⦄ where
  open d use {nought, add, sub, mul, max, lt, le}

  -- An index past the end would panic; `get_elem?-lt` shows that there is none.
  share_at : List (SplitTier D) → ℕ → D
  share_at tiers i = elim (get_elem? tiers i) [ none ↦ nought | some t ↦ t.trader_share ]

  unfoldable pub trader_share_for : PayoutConfig D → ℕ → D
  unfolding share_at
  trader_share_for config payout_count = elim config.tiers [
    | [] ↦ nought
    | t ∷ ts ↦ share_at (t ∷ ts) (min payout_count (length ts))
  ]

  -- The test of the payout cycle.
  cycle_check : Option ℕ → Option Timestamp → Timestamp → Option (PayoutError D)
  cycle_check none last now = none
  cycle_check (some gap) none now = none
  cycle_check (some gap) (some last) now =
      if ltb now (last + gap) then some (cycle_not_reached (last + gap)) else none

  unfoldable pub quote_payout :
      Account D → PayoutConfig D → Option Timestamp → Option D → Bool → Timestamp → PayoutQuote D
  unfolding trader_share_for cycle_check
  quote_payout a config last_payout_at balance_at_last_payout refund_used now =
      let reference = unwrap_or balance_at_last_payout a.initial_balance in
      let profit_basis = max (sub a.balance reference) nought in
      let trader_share = trader_share_for config a.payout_count in
      let fee_refund =
        if a.payout_count == 0 && not refund_used then a.plan.refund_fee_amount else nought in
      let amount = add (mul profit_basis trader_share) fee_refund in
      record {
        profit_basis = profit_basis;
        trader_share = trader_share;
        fee_refund = fee_refund;
        amount = amount;
        rejected =
            if le profit_basis nought
            then some no_profit
            else if lt amount config.minimum_payout
            then some (below_minimum config.minimum_payout)
            else cycle_check (min_gap config.cycle) last_payout_at now;
      }

  unfoldable pub record_payout : Account D → D → D → Timestamp → Result (Account D)
  record_payout a amount fee_refund at =
      if not (is_payable a.status)
      then err invalid_state
      else ok (record a {
        payout_count = saturating_suc a.payout_count;
        balance_at_last_payout = a.balance;
        last_payout_at = some at;
        balance = add (sub a.balance amount) fee_refund;
        status = settled a.status;
      })
