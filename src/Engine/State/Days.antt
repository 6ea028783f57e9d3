-- ===== src/Engine/State/Days.antt =====
-- The day counters: `mark_active_trading_day` and `rollover_day` over runs of trading days.
use propfirm_engine.Base.{
  ℕ, zero, suc, ◌+◌, ◌<◌, ◌≡◌, refl, ap, ◌∙◌, not, ◌&&◌, Bool, true, false, ◌||◌, List, [], ◌∷◌,
  none, arith, add_u32, u32_mod, ltb, if◌then◌else◌,
}
use propfirm_engine.Decimal.{Decimal}
use propfirm_engine.Core.Ids.{Timestamp}
use propfirm_engine.Core.Calendar.{Calendar}
use propfirm_engine.Core.Account.{Account}
use propfirm_engine.Engine.State.{mark_active_trading_day, rollover_day}

ltb-suc : (n : ℕ) → ltb 0 (suc n) ≡ true
ltb-suc n = ground arith

module _ {D : Type 0} where
  unfoldable pub fills : ℕ → Account D → Account D
  fills zero a = a
  fills (suc n) a = fills n (mark_active_trading_day a)

  mark_counted : (a : Account D) → a.day_counted_today ≡ true → mark_active_trading_day a ≡ a
  unfolding mark_active_trading_day
  mark_counted a h = ground arith

  fills_counted : (n : ℕ) (a : Account D) → a.day_counted_today ≡ true → fills n a ≡ a
  unfolding fills
  fills_counted zero a h = refl
  fills_counted (suc n) a h = ap (fills n) (mark_counted a h) ∙ fills_counted n a h

  mark_uncounted :
      (a : Account D)
      → a.day_counted_today ≡ false
      → let b = mark_active_trading_day a in
        (b.active_trading_days ≡ add_u32 a.active_trading_days 1) × (b.day_counted_today ≡ true)
  unfolding mark_active_trading_day
  mark_uncounted a h = ground arith

  -- However many fills a day has, it is counted once.
  fills_lem :
      (n : ℕ) (a : Account D)
      → a.day_counted_today ≡ false
      → let b = fills n a in
        (b.active_trading_days
          ≡ (if ltb 0 n then add_u32 a.active_trading_days 1 else a.active_trading_days))
        × (b.day_counted_today ≡ ltb 0 n)
  unfolding fills
  fills_lem zero a h = (refl, h)
  fills_lem (suc n) a h =
      let (count, done) = mark_uncounted a h in
      let same = fills_counted n (mark_active_trading_day a) done in
      rw (ltb-suc n)
        (ap (λ b. b.active_trading_days) same ∙ count, ap (λ b. b.day_counted_today) same ∙ done)

-- A trading day: how many fills it has, and the flag that its rollover is given.
pub record TradingDay : Type 0 where
  pub fill_count : ℕ
  pub had_trades : Bool
  pub clock : Timestamp

abbrev pub is_traded : TradingDay → Bool
is_traded t = ltb 0 t.fill_count || t.had_trades

-- The days with at least one fill, or whose rollover is told of trades.
abbrev pub traded_days : List TradingDay → ℕ
traded_days [] = 0
traded_days (t ∷ ts) = (if is_traded t then 1 else 0) + traded_days ts

module _ {D : Type 0} ⦃d : Decimal D⦄ ⦃c : Calendar⦄ where
  unfoldable pub pass_day : Account D → TradingDay → Account D
  pass_day a t = rollover_day (fills t.fill_count a) t.had_trades none t.clock

  unfoldable pub pass_days : Account D → List TradingDay → Account D
  pass_days a [] = a
  pass_days a (t ∷ ts) = pass_days (pass_day a t) ts

  rollover_counts :
      (b : Account D) (had : Bool) (now : Timestamp)
      → let r = rollover_day b had none now in
        (r.active_trading_days ≡ (
          if had && not b.day_counted_today
          then add_u32 b.active_trading_days 1
          else b.active_trading_days))
        × (r.day_counted_today ≡ false)
  unfolding rollover_day
  rollover_counts b had now = ground arith

  pass_day_counts :
      (a : Account D) (t : TradingDay)
      → a.day_counted_today ≡ false
      → ((pass_day a t).active_trading_days
          ≡ (if is_traded t then add_u32 a.active_trading_days 1 else a.active_trading_days))
        × ((pass_day a t).day_counted_today ≡ false)
  unfolding pass_day
  pass_day_counts a t h = ground (
    arith,
    fills_lem t.fill_count a h,
    rollover_counts (fills t.fill_count a) t.had_trades t.clock,
  )

  -- From an account whose current day is not counted yet, any run of trading days, each with any
  -- number of fills and either flag at its rollover, adds to `active_trading_days` (a wrapping
  -- `u32`) the number of days with a fill or a flag: no day is counted twice and none is lost.
  pub active_days-pass_days :
      (a : Account D) (ts : List TradingDay)
      → a.day_counted_today ≡ false
      → a.active_trading_days < u32_mod
      → (pass_days a ts).active_trading_days ≡ add_u32 a.active_trading_days (traded_days ts)
  unfolding pass_days
  active_days-pass_days a [] h b = omega arith
  active_days-pass_days a (t ∷ ts) h b =
      let (count, fresh) = pass_day_counts a t h in
      ground (arith, count, active_days-pass_days (pass_day a t) ts fresh)
