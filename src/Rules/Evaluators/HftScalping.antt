-- ===== src/Rules/Evaluators/HftScalping.antt =====
-- rules/evaluators/hft_scalping.rs. `cap` reads `max_closes_per_minute` as a natural number from the JSON text
-- of the parameters.
use propfirm_engine.Base.{
  ℕ, ◌-◌, ◌%◌, ◌^◌, String, Bool, true, false, ◌&&◌, List, keep, any, length, Option, none, some,
  unwrap_or, if◌then◌else◌, ltb, leb, same_string, u32_mod, Result, ok,
}
use propfirm_engine.Base.Int.{ℤ, pos, ◌-ℤ◌}
use propfirm_engine.Decimal.{Decimal}
use propfirm_engine.Core.Ids.{Uuid, Timestamp, nanos_per_second, nanos_per_minute, shift}
use propfirm_engine.Core.Trading.{Trade, TradeSide, entry, exit, reverse}
use propfirm_engine.Core.Account.{Account}
use propfirm_engine.Core.Violation.{Violation, ViolationSeverity, ViolationKind}
use propfirm_engine.Rules.Verdict.{RuleVerdict}
use propfirm_engine.Rules.Params.{RuleParams, and_then}
use propfirm_engine.Rules.Context.{RuleContext, build_violation}

-- `n as u32`
max_closes_of : Option ℕ → ℕ
max_closes_of none = 10
max_closes_of (some n) = n % u32_mod

abbrev same_trade_side : TradeSide → TradeSide → Bool
same_trade_side entry entry = true
same_trade_side exit exit = true
same_trade_side reverse reverse = true
same_trade_side _ _ = false

module _ {D : Type 0} ⦃d : Decimal D⦄ where
  open d use {nought, new, add, sub, mul, div, max, min, abs, lt, le, is_zero, to_u64, to_i64, sqrt}

  unfoldable pub effective_min_round_trip_seconds : Option (RuleParams D) → Account D → ℤ
  effective_min_round_trip_seconds params a =
      let of_plan =
        if ltb a.plan.hft_min_round_trip_seconds (2 ^ 63)
        then pos a.plan.hft_min_round_trip_seconds
        else pos 60 in
      unwrap_or (and_then (and_then params (λ p. p.value)) to_i64) of_plan

  unfoldable pub effective_max_closes_per_minute : (String → Option ℕ) → Option (RuleParams D) → ℕ
  unfolding max_closes_of
  effective_max_closes_per_minute cap params =
      max_closes_of (and_then params (λ p. cap p.params_json))

  unfoldable pub is_enabled : Option (RuleParams D) → Account D → Bool
  is_enabled none a = a.plan.hft_ban_enabled
  is_enabled (some p) a = p.enabled

  executed_within : Timestamp → Timestamp → Trade D → Bool
  executed_within from to t = leb from t.executed_at && leb t.executed_at to

  -- An entry in the symbol of the exit, no more than the round trip before it.
  unfoldable pub is_fast_entry : ℤ → Trade D → Trade D → Bool
  unfolding executed_within
  is_fast_entry min_round_trip trade t =
      same_string t.symbol trade.symbol
      && (executed_within (shift trade.executed_at (pos 0 -ℤ min_round_trip) nanos_per_second)
            trade.executed_at t
          && same_trade_side t.trade_side entry)

  -- The exits of the minute that ends with the trade, as a `u32`.
  unfoldable pub recent_closes : Trade D → List (Trade D) → ℕ
  unfolding executed_within
  recent_closes trade trades =
      length (
        keep
          (λ t.
            executed_within (trade.executed_at - nanos_per_minute) trade.executed_at t
            && same_trade_side t.trade_side exit)
          trades)
      % u32_mod

  violation_of : Uuid → RuleContext D → ViolationSeverity → Violation D
  violation_of id ctx severity =
      build_violation id "HFT / Scalping" ViolationKind.custom ctx severity

  judge : Uuid → RuleContext D → ℤ → ℕ → Option (Trade D) → RuleVerdict D
  unfolding violation_of is_fast_entry recent_closes
  judge id ctx min_round_trip max_closes none = RuleVerdict.pass
  judge id ctx min_round_trip max_closes (some trade) =
      if same_trade_side trade.trade_side exit
        && any (is_fast_entry min_round_trip trade) ctx.today_trades
      then RuleVerdict.warn (violation_of id ctx ViolationSeverity.warning)
      else if ltb max_closes (recent_closes trade ctx.today_trades)
      then RuleVerdict.warn (violation_of id ctx ViolationSeverity.warning)
      else RuleVerdict.pass

  unfoldable pub evaluate :
      (String → Option ℕ) → Option (RuleParams D) → Uuid → RuleContext D → Result (RuleVerdict D)
  unfolding judge effective_min_round_trip_seconds effective_max_closes_per_minute
  evaluate cap params id ctx = ok (
      judge id ctx (effective_min_round_trip_seconds params ctx.account)
        (effective_max_closes_per_minute cap params) ctx.latest_trade)
