-- ===== src/Payout/Laws.antt =====
-- When a payout is granted, which tier it uses, and what its execution leaves to be paid.
use Prim.Native.Nat.{min}
use propfirm_engine.Base.{
  true, inl, inr, u32_mod, ◌-◌, ℕ, zero, suc, ◌+◌, ◌≤◌, ◌≡◌, refl, ◌↔◌, Bool, false, List, [], ◌∷◌,
  Option, none, some, arith, length, ok, is_ok, ◌<◌, ◌∙◌, Result, Result-cases, ◌>>=◌,
}
use propfirm_engine.Decimal.{Decimal, IsOrdered, IsMonotone, ◌≼◌}
use propfirm_engine.Core.Ids.{Timestamp}
use propfirm_engine.Core.PayoutConfig.{PayoutConfig, SplitTier, min_gap}
use propfirm_engine.Core.Account.{Account, AccountStatus}
use propfirm_engine.Payout.{
  no_profit, quote_payout, record_payout, trader_share_for, is_payable, share_at, cycle_check,
  saturating_suc,
}

-- The gap of the payout cycle, if there is one, has passed since the last payout, if there was one.
abbrev pub CycleReached : Option ℕ → Option Timestamp → Timestamp → Type 0
CycleReached none last now = Unit {0}
CycleReached (some gap) none now = Unit {0}
CycleReached (some gap) (some last) now = last + gap ≤ now

module _ {D : Type 0} ⦃d : Decimal D⦄ where
  cycle_check_iff :
      (gap : Option ℕ) (last : Option Timestamp) (now : Timestamp)
      → (cycle_check {D = D} gap last now ≡ none) ↔ CycleReached gap last now
  unfolding cycle_check
  cycle_check_iff none last now = ground arith
  cycle_check_iff (some gap) none now = ground arith
  cycle_check_iff (some gap) (some last) now = ground arith

  -- A quote is not rejected exactly when there is profit, the amount is at least the minimum, and
  -- the payout cycle has been reached. The qualifying days that a configuration may ask for have no
  -- part in it.
  pub rejected-quote_payout :
      (a : Account D) (config : PayoutConfig D) (last : Option Timestamp) (mark : Option D)
      (used : Bool) (now : Timestamp)
      → let q = quote_payout a config last mark used now in
        (q.rejected ≡ none) ↔ (
          (d.le q.profit_basis d.nought ≡ false)
          × (d.lt q.amount config.minimum_payout ≡ false)
          × CycleReached (min_gap config.cycle) last now)
  unfolding quote_payout
  rejected-quote_payout a config last mark used now =
      ground (arith, cycle_check_iff (min_gap config.cycle) last now)

  -- Each payout uses up one tier, and the last tier is never used up.
  unfoldable pub walk : List (SplitTier D) → ℕ → D
  walk [] n = d.nought
  walk (t ∷ []) n = t.trader_share
  walk (t ∷ u ∷ ts) zero = t.trader_share
  walk (t ∷ u ∷ ts) (suc n) = walk (u ∷ ts) n

  share_at-walk :
      (t : SplitTier D) (ts : List (SplitTier D)) (n : ℕ)
      → share_at (t ∷ ts) (min n (length ts)) ≡ walk (t ∷ ts) n
  unfolding share_at walk
  share_at-walk t [] n = ground arith
  share_at-walk t (u ∷ ts) zero = ground arith
  share_at-walk t (u ∷ ts) (suc n) = ground (arith, share_at-walk u ts n)

  share_of_tiers :
      (tiers : List (SplitTier D)) (n : ℕ)
      → (elim tiers [ [] ↦ d.nought | t ∷ ts ↦ share_at (t ∷ ts) (min n (length ts)) ])
        ≡ walk tiers n
  unfolding walk
  share_of_tiers [] n = refl
  share_of_tiers (t ∷ ts) n = share_at-walk t ts n

  -- The share of payout number `n` is the one found by using up a tier for each earlier payout and
  -- keeping the last.
  pub trader_share_for_lem :
      (config : PayoutConfig D) (n : ℕ) → trader_share_for config n ≡ walk config.tiers n
  unfolding trader_share_for
  trader_share_for_lem config n = share_of_tiers config.tiers n

  -- A payout is recorded exactly on a funded account or one whose payout is pending.
  pub is_ok-record_payout :
      (a : Account D) (amount refund : D) (at : Timestamp)
      → is_ok (record_payout a amount refund at) ≡ is_payable a.status
  unfolding record_payout
  is_ok-record_payout a amount refund at = ground arith

  record_payout_lem :
      (a b : Account D) (amount refund : D) (at : Timestamp)
      → record_payout a amount refund at ≡ ok b
      → (b.status ≡ AccountStatus.funded)
        × (b.payout_count ≡ saturating_suc a.payout_count)
        × (b.balance ≡ d.add (d.sub a.balance amount) refund)
        × (b.balance_at_last_payout ≡ a.balance)
        × (b.last_payout_at ≡ some at)
        × (b.refund_used ≡ a.refund_used)
        × (b.equity ≡ a.equity)
  unfolding record_payout
  record_payout_lem a b amount refund at h = ground arith

  -- Payouts of an amount with a refund at a time, one after another, and what they leave of a
  -- balance and of the mark of the next payout.
  unfoldable pub pay_all : Account D → List (D × D × Timestamp) → Result (Account D)
  pay_all a [] = ok a
  pay_all a ((amount, refund, at) ∷ ps) = record_payout a amount refund at >>= λ b. pay_all b ps

  unfoldable pub balance_after : D → List (D × D × Timestamp) → D
  balance_after balance [] = balance
  balance_after balance ((amount, refund, at) ∷ ps) =
      balance_after (d.add (d.sub balance amount) refund) ps

  unfoldable pub mark_after : D → D → List (D × D × Timestamp) → D
  mark_after mark balance [] = mark
  mark_after mark balance ((amount, refund, at) ∷ ps) =
      mark_after balance (d.add (d.sub balance amount) refund) ps

  record_payout_accepts :
      (a : Account D) (amount refund : D) (at : Timestamp)
      → is_payable a.status ≡ true
      → (b : Account D) × (record_payout a amount refund at ≡ ok b)
  unfolding record_payout
  record_payout_accepts a amount refund at h =
      elim (Result-cases (record_payout a amount refund at)) [
        | inl (b, e) ↦ (b, e)
        | inr (x, e) ↦ absurd (ground (arith, h, e))
      ]

  -- Any number of payouts, one after another, are all recorded on an account that is funded or whose
  -- payout is pending. They leave the count of payouts higher by their number, but at most at the
  -- greatest u32; the balance less each amount plus each refund; as the mark of the next payout the
  -- balance before the last one, or the mark of before if there was none; and the flag of the
  -- refund and the equity unchanged. The count of before is a u32.
  pub pay_all_lem :
      (a : Account D) (ps : List (D × D × Timestamp))
      → is_payable a.status ≡ true
      → a.payout_count < u32_mod
      → (b : Account D) × (pay_all a ps ≡ ok b)
        × (is_payable b.status ≡ true)
        × (b.payout_count ≡ min (a.payout_count + length ps) (u32_mod - 1))
        × (b.balance ≡ balance_after a.balance ps)
        × (b.balance_at_last_payout ≡ mark_after a.balance_at_last_payout a.balance ps)
        × (b.refund_used ≡ a.refund_used)
        × (b.equity ≡ a.equity)
  unfolding pay_all balance_after mark_after
  pay_all_lem a [] h k = (a, refl, h, ground (arith, k), refl, refl, refl, refl)
  pay_all_lem a ((amount, refund, at) ∷ ps) h k =
      let (m, recorded) = record_payout_accepts a amount refund at h in
      let (status, count, balance, mark, time, used, equity) =
        record_payout_lem a m amount refund at recorded in
      let (b, done, payable, total, left, next, flag, same) =
        pay_all_lem m ps (ground (arith, status)) (ground (arith, count)) in
      (
        b,
        ground (arith, recorded, done),
        payable,
        ground (arith, total, count),
        ground (arith, left, balance),
        ground (arith, next, mark, balance),
        flag ∙ used,
        same ∙ equity,
      )

  module _ (laws : IsOrdered D) (mono : IsMonotone D) where
    -- After a payout, a quote on the marks that it left is rejected for want of profit as long as
    -- the balance is not above the balance before that payout: the amount paid has to be earned
    -- back before anything is paid again.
    pub quote_payout-record_payout :
        (a b c : Account D) (amount refund : D) (at now : Timestamp) (config : PayoutConfig D)
        (used : Bool)
        → record_payout a amount refund at ≡ ok b
        → c.balance ≼ a.balance
        → let q = quote_payout c config b.last_payout_at (some b.balance_at_last_payout) used now in
          q.rejected ≡ some no_profit
    unfolding record_payout quote_payout
    quote_payout-record_payout a b c amount refund at now config used h low = ground (
      arith,
      record_payout_lem a b amount refund at,
      laws.max_lem (d.sub c.balance a.balance) d.nought,
      laws.le_refl d.nought,
      laws.lt-eq-not-le (d.sub c.balance a.balance) d.nought,
      mono.sub_mono c.balance a.balance a.balance low,
      mono.sub_self a.balance,
    )
