-- ===== src/Engine/Pipeline/Rollover/Ends.antt =====
-- The automatic rollover ends, on the day of the event, with the account's money unchanged.
use propfirm_engine.Base.{
  ◌⊎◌, inl, inr, Result-cases, Option-cases, inr, ℕ, zero, suc, ◌+◌, ◌-◌, ◌≤◌, ◌<◌, ◌≡◌, refl, ◌∙◌,
  Bool, true, false, List, [], ◌∷◌, some, unwrap_or, if◌then◌else◌, ltb, leb, ok, arith, Bool-cases,
  inl, inr,
}
use propfirm_engine.Decimal.{Decimal}
use propfirm_engine.Core.Ids.{Timestamp}
use propfirm_engine.Core.Calendar.{Calendar, IsCalendar}
use propfirm_engine.Core.Plan.{ChallengePlan, trading_day_start, next_trading_day_start}
use propfirm_engine.Core.Account.{Account}
use propfirm_engine.Core.Events.{DomainEvent, DomainEventKind, event}
use propfirm_engine.Engine.State.{rollover_day}
use propfirm_engine.Engine.Pipeline.Rollover.{roll, catch_up, auto_rollover}

module _ {D : Type 0} ⦃d : Decimal D⦄ ⦃c : Calendar⦄ where
  -- What a rollover keeps.
  abbrev pub SameMoney : Account D → Account D → Type 0
  SameMoney a b =
      (b.plan ≡ a.plan)
      × (b.balance ≡ a.balance)
      × (b.equity ≡ a.equity)
      × (b.status ≡ a.status)
      × (b.peak_balance ≡ a.peak_balance)
      × (b.peak_equity ≡ a.peak_equity)
      × (b.open_positions ≡ a.open_positions)
      × (b.last_tick_ts ≡ a.last_tick_ts)

  -- What a day begins with: no profit of the day, no trades, and the present balance and equity.
  abbrev pub IsFreshDay : Account D → Type 0
  IsFreshDay b =
      (b.today_realized_pnl ≡ d.nought)
      × (b.today_trades ≡ [])
      × (b.intraday_peak_equity ≡ b.equity)
      × (b.day_start_equity ≡ b.equity)
      × (b.day_start_balance ≡ b.balance)

  SameMoney-trans : (x y z : Account D) → SameMoney x y → SameMoney y z → SameMoney x z
  SameMoney-trans x y z h k = ground arith

  roll_keeps :
      (a : Account D) (first : Bool) (start event_ts day now : Timestamp)
      → SameMoney a (roll a first start event_ts day now)
  unfolding roll rollover_day
  roll_keeps a first start event_ts day now = ground arith

  IsFreshDay-roll :
      (a : Account D) (first : Bool) (start event_ts day now : Timestamp)
      → IsFreshDay (roll a first start event_ts day now)
  unfolding roll rollover_day
  IsFreshDay-roll a first start event_ts day now = ground arith

  IsFreshDay-catch_up :
      (fuel : ℕ) (a b : Account D) (first : Bool) (event_ts day now : Timestamp)
      → IsFreshDay a
      → catch_up fuel a first event_ts day now ≡ ok b
      → IsFreshDay b
  unfolding catch_up
  IsFreshDay-catch_up zero a b first event_ts day now fresh h = ground (arith, fresh, h)
  IsFreshDay-catch_up (suc fuel) a b first event_ts day now fresh h =
      elim (Option-cases a.current_trading_day_start) [
        | inl e ↦ absurd (ground (arith, e, h))
        | inr (start, e) ↦ elim (Bool-cases (ltb start day)) [
          | inr reached ↦ ground (arith, e, h, reached, fresh)
          | inl behind ↦
              IsFreshDay-catch_up fuel (roll a first start event_ts day now) b false event_ts day
                now (IsFreshDay-roll a first start event_ts day now) (ground (arith, e, h, behind))
        ]
      ]

  -- From a day that is behind, the loop makes at least one round.
  IsFreshDay-behind :
      (fuel : ℕ) (a b : Account D) (first : Bool) (start event_ts day now : Timestamp)
      → a.current_trading_day_start ≡ some start
      → ltb start day ≡ true
      → catch_up fuel a first event_ts day now ≡ ok b
      → IsFreshDay b
  unfolding catch_up
  IsFreshDay-behind zero a b first start event_ts day now e behind h =
      absurd (ground (arith, e, h, behind))
  IsFreshDay-behind (suc fuel) a b first start event_ts day now e behind h =
      IsFreshDay-catch_up fuel (roll a first start event_ts day now) b false event_ts day now
        (IsFreshDay-roll a first start event_ts day now) (ground (arith, e, h, behind))

  catch_up_keeps :
      (fuel : ℕ) (a b : Account D) (first : Bool) (event_ts day now : Timestamp)
      → catch_up fuel a first event_ts day now ≡ ok b
      → SameMoney a b
  unfolding catch_up
  catch_up_keeps zero a b first event_ts day now h = ground arith
  catch_up_keeps (suc fuel) a b first event_ts day now h =
      elim (Option-cases a.current_trading_day_start) [
        | inl e ↦ ground (arith, e)
        | inr (start, e) ↦
            let mid = roll a first start event_ts day now in
            elim (Bool-cases (ltb start day)) [
              | inr reached ↦ ground (arith, e)
              | inl behind ↦
                  SameMoney-trans a mid b (roll_keeps a first start event_ts day now)
                    (catch_up_keeps fuel mid b false event_ts day now (ground (arith, e)))
            ]
      ]

  -- Whatever the calendar, an automatic rollover keeps the plan, the status, the money, the peaks,
  -- the positions and the last tick.
  pub auto_rollover_keeps :
      (a b : Account D) (event_ts now : Timestamp) (es : List (DomainEvent D))
      → auto_rollover a event_ts now ≡ ok (b, es)
      → SameMoney a b
  unfolding auto_rollover
  auto_rollover_keeps a b event_ts now es h =
      let day = trading_day_start a.plan event_ts in
      let start = unwrap_or a.current_trading_day_start day in
      elim (Result-cases (catch_up (day - start) a true event_ts day now)) [
        | inl (e, done) ↦
            ground (arith, done, catch_up_keeps (day - start) a e true event_ts day now done)
        | inr (_, failed) ↦ ground (arith, failed)
      ]

  -- The day that a round opens.
  abbrev opened_day : ChallengePlan D → Timestamp → Timestamp → Timestamp
  opened_day plan start event_ts =
      let day = trading_day_start plan event_ts in
      let next = next_trading_day_start plan start in
      if leb day next then day else trading_day_start plan next

  roll_start :
      (plan : ChallengePlan D) (a : Account D) (first : Bool) (start event_ts now : Timestamp)
      → a.plan ≡ plan
      → (roll a first start event_ts
          (trading_day_start plan event_ts)
          now).current_trading_day_start
        ≡ some (opened_day plan start event_ts)
  unfolding roll rollover_day
  roll_start plan a first start event_ts now p = ground arith

module _ {D : Type 0} ⦃d : Decimal D⦄ ⦃c : Calendar⦄ (laws : IsCalendar c) where
  next_start_fixed :
      (plan : ChallengePlan D) (t : Timestamp)
      → plan.day_reset_time < 24
      → let next = next_trading_day_start plan t in
        (trading_day_start plan next ≡ next) × (t < next)
  unfolding trading_day_start next_trading_day_start
  next_start_fixed plan t h = ground (
    arith,
    laws.reset_of_next plan.timezone plan.day_reset_time t h,
    laws.next_later plan.timezone plan.day_reset_time t h,
  )

  catch_up_ends :
      (fuel : ℕ) (plan : ChallengePlan D) (a : Account D) (first : Bool)
      (event_ts start now : Timestamp)
      → plan.day_reset_time < 24
      → a.plan ≡ plan
      → a.current_trading_day_start ≡ some start
      → let day = trading_day_start plan event_ts in
        start ≤ day
        → day ≤ start + fuel
        → (b : Account D) × (catch_up fuel a first event_ts day now ≡ ok b)
          × (b.current_trading_day_start ≡ some day)
          × SameMoney a b
  unfolding catch_up
  catch_up_ends zero plan a first event_ts start now h p k low high =
      (a, ground arith, ground arith, ground arith)
  catch_up_ends (suc fuel) plan a first event_ts start now h p k low high =
      let day = trading_day_start plan event_ts in
      let next = next_trading_day_start plan start in
      let (fixed, later) = next_start_fixed plan start h in
      let b = roll a first start event_ts day now in
      let keeps = roll_keeps a first start event_ts day now in
      let starts = roll_start plan a first start event_ts now p in
      let (plan_kept, _, _, _, _, _, _, _) = keeps in
      elim (Bool-cases (ltb start day)) [
        | inr reached ↦ (a, ground arith, ground arith, ground arith)
        | inl behind ↦
            let new_start = opened_day plan start event_ts in
            let (e, done, at, same) =
              catch_up_ends fuel plan b false event_ts new_start now h (plan_kept ∙ p) starts
                (ground arith) (ground arith) in
            (e, ground arith, at, SameMoney-trans a b e keeps same)
      ]

  rollover_again :
      (b : Account D) (event_ts now : Timestamp)
      → leb
          (trading_day_start b.plan event_ts)
          (unwrap_or b.current_trading_day_start (trading_day_start b.plan event_ts))
        ≡ true
      → auto_rollover b event_ts now ≡ ok (b, [])
  unfolding auto_rollover
  rollover_again b event_ts now h = ground arith

  -- On a calendar as the code relies on, and with a reset hour of the day, the automatic rollover
  -- before an event ends and gives an account whose current day is not before the day of the event.
  -- It is the account of before, or its day is exactly that of the event and begins afresh: with no
  -- profit and no trades of the day, and with the present balance and equity as the start of the
  -- day, the equity also as the peak of the day. Its plan, status, balance, equity, overall peaks of
  -- balance and equity, positions and last tick are those of before, and a second rollover for the
  -- same event does nothing.
  pub auto_rollover_ends :
      (a : Account D) (event_ts now : Timestamp)
      → a.plan.day_reset_time < 24
      → let day = trading_day_start a.plan event_ts in
        (b : Account D) × (es : List (DomainEvent D)) × (auto_rollover a event_ts now ≡ ok (b, es))
        × (day ≤ unwrap_or b.current_trading_day_start day)
        × ((b ≡ a) ⊎ ((b.current_trading_day_start ≡ some day) × IsFreshDay b))
        × (auto_rollover b event_ts now ≡ ok (b, []))
        × SameMoney a b
  unfolding auto_rollover
  auto_rollover_ends a event_ts now h =
      let day = trading_day_start a.plan event_ts in
      let start = unwrap_or a.current_trading_day_start day in
      elim (Bool-cases (ltb start day)) [
        | inr reached ↦ (
          a,
          [],
          ground arith,
          ground arith,
          inl refl,
          rollover_again a event_ts now (ground arith),
          ground arith,
        )
        | inl behind ↦
            let (b, done, at, same) =
              catch_up_ends (day - start) a.plan a true event_ts start now h refl (ground arith)
                (ground arith) (ground arith) in
            let (plan_kept, _, _, _, _, _, _, _) = same in
            let known : a.current_trading_day_start ≡ some start = ground (arith, behind) in
            (
              b,
              event b.id (DomainEventKind.day_rollover b.trading_day_index b.day_start_balance)
                    event_ts
                  ∷ [],
              ground (arith, done),
              ground arith,
              inr (
                at,
                IsFreshDay-behind (day - start) a b true start event_ts day now known behind done,
              ),
              rollover_again b event_ts now (ground arith),
              same,
            )
      ]
