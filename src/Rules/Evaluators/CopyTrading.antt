-- ===== src/Rules/Evaluators/CopyTrading.antt =====
-- rules/evaluators/copy_trading.rs. `seconds` is `json_decimal("window_seconds")` on the JSON text of the
-- parameters.
use propfirm_engine.Base.{
  ℕ, ◌+◌, ◌-◌, ◌^◌, String, Bool, true, false, not, ◌&&◌, keep, length, Option, none, some,
  unwrap_or, if◌then◌else◌, ◌==◌, leb, same_string, Result, ok, err, invalid_config, ◌>>=◌,
}
use propfirm_engine.Base.Int.{ℤ, pos, negsuc, pos_part, neg_part, leb_ℤ}
use propfirm_engine.Decimal.{Decimal}
use propfirm_engine.Core.Ids.{Uuid, nanos_per_second, whole}
use propfirm_engine.Core.Trading.{Trade, OrderSide, buy, sell}
use propfirm_engine.Core.Account.{Account}
use propfirm_engine.Core.Violation.{Violation, ViolationSeverity, ViolationKind}
use propfirm_engine.Rules.Verdict.{RuleVerdict}
use propfirm_engine.Rules.Params.{RuleParams, effective_count, and_then}
use propfirm_engine.Rules.Context.{RuleContext, build_violation}

abbrev pub default_fail_threshold : ℕ
default_fail_threshold = 3

abbrev pub default_window_seconds : ℤ
default_window_seconds = pos 5

-- `v as usize`, which wraps.
as_usize : ℤ → ℕ
as_usize (pos n) = n
as_usize (negsuc n) = 2 ^ 64 - (n + 1)

unfoldable pub threshold_of : Option ℤ → Result ℕ
unfolding as_usize
threshold_of none = err invalid_config
threshold_of (some v) = ok (as_usize v)

abbrev same_order_side : OrderSide → OrderSide → Bool
same_order_side buy buy = true
same_order_side sell sell = true
same_order_side _ _ = false

module _ {D : Type 0} ⦃d : Decimal D⦄ where
  open d use {nought, new, add, sub, mul, div, max, min, abs, lt, le, is_zero, to_u64, to_i64, sqrt}

  abbrev pub quantity_tolerance : D
  quantity_tolerance = new (pos 10) 2

  unfoldable pub effective_fail_threshold : Option (RuleParams D) → Result ℕ
  unfolding effective_count threshold_of
  effective_fail_threshold none = ok default_fail_threshold
  effective_fail_threshold (some p) = effective_count p >>= λ n. threshold_of (to_i64 n)

  unfoldable pub effective_window_seconds : (String → Option D) → Option (RuleParams D) → ℤ
  effective_window_seconds seconds params =
      unwrap_or (and_then (and_then params (λ p. seconds p.params_json)) to_i64)
        default_window_seconds

  unfoldable pub is_enabled : Option (RuleParams D) → Account D → Bool
  is_enabled none a = not a.plan.copy_trading_allowed
  is_enabled (some p) a = p.enabled && not a.plan.copy_trading_allowed

  -- A trade of another account, in the same symbol and direction, at nearly the same time and of
  -- nearly the same quantity.
  unfoldable pub correlates : ℤ → Trade D → Trade D → Bool
  correlates window_seconds trade reference =
      let off = whole nanos_per_second reference.executed_at trade.executed_at in
      let lower = mul reference.quantity (sub (new (pos 1) 0) quantity_tolerance) in
      let upper = mul reference.quantity (add (new (pos 1) 0) quantity_tolerance) in
      not (reference.account_id == trade.account_id)
      && (same_string reference.symbol trade.symbol
          && (same_order_side reference.side trade.side
              && (leb_ℤ (pos (pos_part off + neg_part off)) window_seconds
                  && (le lower trade.quantity && le trade.quantity upper))))

  violation_of : Uuid → RuleContext D → ViolationSeverity → Violation D
  violation_of id ctx severity =
      build_violation id "Copy Trading" ViolationKind.copy_trading ctx severity

  judge : Uuid → RuleContext D → ℕ → ℤ → Option (Trade D) → RuleVerdict D
  unfolding correlates violation_of
  judge id ctx fail_threshold window_seconds none = RuleVerdict.pass
  judge id ctx fail_threshold window_seconds (some trade) =
      let hits = length (keep (correlates window_seconds trade) ctx.cross_reference_trades) in
      if leb fail_threshold hits
      then RuleVerdict.fail (violation_of id ctx ViolationSeverity.hard)
      else if leb 1 hits
      then RuleVerdict.warn (violation_of id ctx ViolationSeverity.warning)
      else RuleVerdict.pass

  unfoldable pub evaluate :
      (String → Option D) → Option (RuleParams D) → Uuid → RuleContext D → Result (RuleVerdict D)
  unfolding effective_fail_threshold effective_window_seconds judge
  evaluate seconds params id ctx =
      if ctx.account.plan.copy_trading_allowed
      then ok RuleVerdict.pass
      else effective_fail_threshold params >>= λ fail_threshold.
          ok
            (judge id ctx fail_threshold (effective_window_seconds seconds params) ctx.latest_trade)
