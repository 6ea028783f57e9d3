-- ===== src/Rules/Evaluators/NewsTrading.antt =====
-- rules/evaluators/news_trading.rs
use propfirm_engine.Base.{
  ℕ, ◌+◌, ◌-◌, ◌*◌, ◌%◌, String, Bool, not, ◌&&◌, List, [], ◌∷◌, Option, none, some, is_some,
  if◌then◌else◌, leb, Result, ok,
}
use propfirm_engine.Base.Int.{pos_part, neg_part}
use propfirm_engine.Core.Ids.{Uuid, Timestamp, nanos_per_minute, nanos_per_day, whole}
use propfirm_engine.Core.Calendar.{Calendar}
use propfirm_engine.Core.Order.{Order}
use propfirm_engine.Core.Account.{Account}
use propfirm_engine.Core.Violation.{Violation, ViolationSeverity, ViolationKind}
use propfirm_engine.Rules.Verdict.{RuleVerdict}
use propfirm_engine.Rules.Params.{RuleParams}
use propfirm_engine.Rules.Context.{RuleContext, build_violation}
use propfirm_engine.Rules.Config.{NewsTradingConfig}

pub record NewsEvent : Type 0 where
  pub name : String
  pub weekday : ℕ
  pub hour : ℕ
  pub minute : ℕ

abbrev pub builtin_events : List NewsEvent
builtin_events =
    record { name = "NFP"; weekday = 4; hour = 12; minute = 30 }
    ∷ record { name = "CPI"; weekday = 2; hour = 12; minute = 30 }
    ∷ record { name = "FOMC"; weekday = 2; hour = 18; minute = 0 }
    ∷ record { name = "ECB Rate"; weekday = 3; hour = 11; minute = 45 }
    ∷ record { name = "BOE Rate"; weekday = 3; hour = 11; minute = 0 }
    ∷ []

module _ ⦃c : Calendar⦄ where
  -- The next day, today included, of the weekday of the event, at its time.
  event_time : Timestamp → NewsEvent → Timestamp
  event_time ts e =
      c.at_time (ts + (e.weekday + 7 - c.weekday ts) % 7 * nanos_per_day) e.hour e.minute

  -- Whole minutes between an instant and the event, in either direction.
  minutes_off : Timestamp → NewsEvent → ℕ
  unfolding event_time
  minutes_off ts e =
      let off = whole nanos_per_minute ts (event_time ts e) in pos_part off + neg_part off

  first_within : Timestamp → ℕ → List NewsEvent → Option NewsEvent
  unfolding minutes_off
  first_within ts window [] = none
  first_within ts window (e ∷ events) =
      let rest = first_within ts window events in
      if leb (minutes_off ts e) window then some e else rest

  unfoldable pub within_news_window : Timestamp → ℕ → Option NewsEvent
  unfolding first_within
  within_news_window ts window = first_within ts window builtin_events

window_of : Option NewsTradingConfig → ℕ
window_of none = 2
window_of (some cfg) = cfg.window_minutes

module _ {D : Type 0} where
  unfoldable pub is_enabled : Option (RuleParams D) → Account D → Bool
  is_enabled none a = not a.plan.news_trading_allowed
  is_enabled (some p) a = p.enabled && not a.plan.news_trading_allowed

  violation_of : Uuid → RuleContext D → ViolationSeverity → Violation D
  violation_of id ctx severity =
      build_violation id "News Trading" ViolationKind.news_trading ctx severity

  module _ ⦃c : Calendar⦄ where
    judge : Uuid → RuleContext D → Option (Order D) → RuleVerdict D
    unfolding violation_of window_of
    judge id ctx none = RuleVerdict.pass
    judge id ctx (some order) =
        if is_some (within_news_window order.submitted_at (window_of ctx.rule_config.news_trading))
        then RuleVerdict.fail (violation_of id ctx ViolationSeverity.hard)
        else RuleVerdict.pass

    unfoldable pub evaluate : Option (RuleParams D) → Uuid → RuleContext D → Result (RuleVerdict D)
    unfolding judge
    evaluate params id ctx =
        if ctx.account.plan.news_trading_allowed
        then ok RuleVerdict.pass
        else ok (judge id ctx ctx.pending_order)
