-- ===== src/Engine/Pipeline/Process/Replay.antt =====
-- Runs of events: no tick of the broker is processed twice.
use propfirm_engine.Base.{
  Option-cases, inl, inr, subst, ◌∙◌, ◌<◌, ◌≡◌, Bool, true, false, List, [], ◌∷◌, Option, none,
  some, arith, Result, ok, bind-ok, ◌>>=◌, any,
}
use propfirm_engine.Decimal.{Decimal}
use propfirm_engine.Core.Ids.{Uuid, Timestamp}
use propfirm_engine.Core.Calendar.{Calendar}
use propfirm_engine.Core.Account.{Account}
use propfirm_engine.Engine.Pipeline.Events.{PipelineEvent, tick, tick_estimated, is_out_of_order}
use propfirm_engine.Engine.Pipeline.Process.{Services, PipelineResult, process}
use propfirm_engine.Engine.Pipeline.Process.Results.{last_tick-process, process-tick}
use propfirm_engine.Engine.Pipeline.Process.Stages.{or_last, tick_time}

-- One call of `process`: the event, the wall clock and the two fresh UUIDs.
pub record Call (D : Type 0) : Type 0 where
  pub event : PipelineEvent D
  pub now : Timestamp
  pub fresh_position : Uuid
  pub fresh_instruction : Uuid

abbrev pub is_estimated : {D : Type 0} → PipelineEvent D → Bool
is_estimated (tick_estimated _) = true
is_estimated _ = false

-- The time of a tick of the broker.
abbrev pub broker_time : {D : Type 0} → PipelineEvent D → Option Timestamp
broker_time (tick t _ _) = some t.quote.ts
broker_time _ = none

unfoldable pub broker_times : {D : Type 0} → List (Call D) → List Timestamp
broker_times [] = []
broker_times (x ∷ xs) =
    let rest = broker_times xs in elim (broker_time x.event) [ none ↦ rest | some t ↦ t ∷ rest ]

abbrev pub IsAfter : Option Timestamp → Timestamp → Type 0
IsAfter none t = Unit {0}
IsAfter (some last) t = last < t

-- Each time is later than the one before it, the first one than `last`.
abbrev pub AreIncreasing : Option Timestamp → List Timestamp → Type 0
AreIncreasing last [] = Unit {0}
AreIncreasing last (t ∷ ts) = IsAfter last t × AreIncreasing (some t) ts

in_order :
    (t : Timestamp) (last : Option Timestamp) → is_out_of_order t last ≡ false → IsAfter last t
in_order t none h = tt
in_order t (some last) h = ground arith

module _ {D : Type 0} ⦃d : Decimal D⦄ ⦃c : Calendar⦄ (services : Services D) where
  -- The account after a run of calls, each on the account that the last one gave.
  unfoldable pub run : Account D → List (Call D) → Result (Account D)
  run a [] = ok a
  run a (x ∷ xs) = process services a x.event x.now x.fresh_position x.fresh_instruction >>= λ r.
      run r.account xs

  order_guard :
      (a : Account D) (ev : PipelineEvent D) (now : Timestamp) (f g : Uuid) (r : PipelineResult D)
      (t : Timestamp)
      → process services a ev now f g ≡ ok r
      → broker_time ev ≡ some t
      → is_out_of_order t a.last_tick_ts ≡ false
  order_guard a (tick u equity balance) now f g r t h e =
      ground (arith, process-tick services a u equity balance now f g r h)
  order_guard a _ now f g r t h e = ground arith

  -- In a run of events that are all processed and none of which is an estimated tick, the times of
  -- the broker's ticks strictly increase, from the last tick that the account had.
  pub run_increasing :
      (a b : Account D) (xs : List (Call D))
      → any (λ x. is_estimated x.event) xs ≡ false
      → run a xs ≡ ok b
      → AreIncreasing a.last_tick_ts (broker_times xs)
  unfolding run broker_times
  run_increasing a b [] h k = tt
  run_increasing a b (x ∷ xs) h k =
      let (r, e, rest) =
        bind-ok (process services a x.event x.now x.fresh_position x.fresh_instruction) _ b k in
      let last =
        last_tick-process services a x.event x.now x.fresh_position x.fresh_instruction r e in
      let later = run_increasing r.account b xs (ground arith) rest in
      elim (Option-cases (broker_time x.event)) [
        | inl no_tick ↦
            let times : broker_times xs ≡ broker_times (x ∷ xs) = ground arith in
            let kept : or_last (tick_time x.event) a.last_tick_ts ≡ a.last_tick_ts = ground arith in
            subst (AreIncreasing a.last_tick_ts) times
              (subst (λ l. AreIncreasing l (broker_times xs)) (last ∙ kept) later)
        | inr (t, is_tick) ↦
            let times : t ∷ broker_times xs ≡ broker_times (x ∷ xs) = ground arith in
            let moved : or_last (tick_time x.event) a.last_tick_ts ≡ some t = ground arith in
            subst (AreIncreasing a.last_tick_ts) times (
              in_order t a.last_tick_ts
                  (order_guard a x.event x.now x.fresh_position x.fresh_instruction r t e is_tick),
              subst (λ l. AreIncreasing l (broker_times xs)) (last ∙ moved) later,
            )
      ]
