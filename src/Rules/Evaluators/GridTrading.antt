-- ===== src/Rules/Evaluators/GridTrading.antt =====
-- rules/evaluators/grid_trading.rs. `json` is `json_decimal` on the JSON text of the parameters, and `lower`
-- is `to_ascii_lowercase`.
use propfirm_engine.Base.{
  ℕ, ◌+◌, ◌*◌, String, Bool, true, false, not, ◌&&◌, ◌||◌, List, [], ◌∷◌, map, keep, length,
  is_empty, Option, none, some, unwrap_or, if◌then◌else◌, ◌==◌, ltb, leb, same_string, Result, ok,
  ◌>>=◌,
}
use mathlib.Core.List.{reverse}
use propfirm_engine.Base.Int.{ℤ, pos, negsuc, pos_part, neg_part}
use propfirm_engine.Decimal.{Decimal}
use propfirm_engine.Core.Ids.{Uuid, Timestamp, nanos_per_minute}
use propfirm_engine.Core.Trading.{Trade, TradeSide, entry, exit}
use propfirm_engine.Core.Order.{Order}
use propfirm_engine.Core.Account.{Account}
use propfirm_engine.Core.Violation.{Violation, ViolationSeverity, ViolationKind}
use propfirm_engine.Rules.Verdict.{RuleVerdict}
use propfirm_engine.Rules.Params.{RuleParams, effective_count, and_then}
use propfirm_engine.Rules.Context.{RuleContext, build_violation}
use propfirm_engine.Rules.Evaluators.CopyTrading.{threshold_of}

abbrev pub default_min_entries : ℕ
default_min_entries = 3

abbrev pub default_max_window_minutes : ℤ
default_max_window_minutes = pos 120

abbrev pub default_escalation_losses : ℕ
default_escalation_losses = 2

-- `map_or(default, |v| v.max(1) as usize)`
at_least_one : Option ℤ → ℕ
at_least_one none = default_escalation_losses
at_least_one (some (pos n)) = if n == 0 then 1 else n
at_least_one (some (negsuc n)) = 1

module _ {D : Type 0} ⦃d : Decimal D⦄ where
  open d use {nought, new, add, sub, mul, div, max, min, abs, lt, le, is_zero, to_u64, to_i64, sqrt}

  abbrev pub default_cv_threshold : D
  default_cv_threshold = new (pos 5) 2

  abbrev pub default_escalation_multiplier : D
  default_escalation_multiplier = new (pos 15) 1

  unfoldable pub effective_min_entries : Option (RuleParams D) → Result ℕ
  unfolding effective_count threshold_of
  effective_min_entries none = ok default_min_entries
  effective_min_entries (some p) = effective_count p >>= λ n. threshold_of (to_i64 n)

  unfoldable pub is_enabled : Option (RuleParams D) → Account D → Bool
  is_enabled none a = not a.plan.grid_trading_allowed
  is_enabled (some p) a = p.enabled && not a.plan.grid_trading_allowed

  -- `sort_by_key(|t| t.executed_at)`, which keeps the order of equal times.
  insert_by_time : Trade D → List (Trade D) → List (Trade D)
  insert_by_time t [] = t ∷ []
  insert_by_time t (u ∷ us) =
      let rest = insert_by_time t us in
      if ltb u.executed_at t.executed_at then u ∷ rest else t ∷ u ∷ us

  unfoldable pub sort_by_time : List (Trade D) → List (Trade D)
  unfolding insert_by_time
  sort_by_time [] = []
  sort_by_time (t ∷ ts) = insert_by_time t (sort_by_time ts)

  last_five : List (Trade D) → List (Trade D)
  last_five [] = []
  last_five (t ∷ ts) = let rest = last_five ts in if ltb 5 (length (t ∷ ts)) then rest else t ∷ ts

  -- The distances of neighbouring prices.
  gaps_of : List (Trade D) → List D
  gaps_of [] = []
  gaps_of (t ∷ []) = []
  gaps_of (t ∷ u ∷ us) = abs (sub u.price t.price) ∷ gaps_of (u ∷ us)

  sum_of : D → List D → D
  sum_of total [] = total
  sum_of total (x ∷ xs) = sum_of (add total x) xs

  abbrev mean_of : List D → D
  mean_of xs = div (sum_of nought xs) (new (pos (length xs)) 0)

  -- The coefficient of variation of the gaps. None for no gap, or a mean of zero.
  unfoldable pub variation_of : List D → Option D
  unfolding sum_of
  variation_of gaps =
      let mean = mean_of gaps in
      let var = mean_of (map (λ g. mul (sub g mean) (sub g mean)) gaps) in
      if is_empty gaps
      then none
      else if is_zero mean
      then none
      else some (div (unwrap_or (sqrt var) nought) mean)

  net_pnl : Trade D → D
  net_pnl t =
      sub (sub (unwrap_or (and_then t.exit_info (λ e. some e.realized_pnl)) nought) t.commission)
        t.swap

  -- The sizes of the losing exits at the end, newest first.
  loss_sizes : List (Trade D) → List D
  unfolding net_pnl
  loss_sizes [] = []
  loss_sizes (t ∷ ts) =
      let rest = loss_sizes ts in if lt (net_pnl t) nought then t.quantity ∷ rest else []

  last_size : List D → Option D
  last_size [] = none
  last_size (x ∷ []) = some x
  last_size (x ∷ y ∷ ys) = last_size (y ∷ ys)

  largest : D → List (Trade D) → D
  largest size [] = size
  largest size (t ∷ ts) = largest (max size t.quantity) ts

  abbrev of_side : String → TradeSide → Trade D → Bool
  of_side symbol entry t =
      same_string t.symbol symbol && elim t.trade_side [ entry ↦ true | _ ↦ false ]
  of_side symbol exit t =
      same_string t.symbol symbol && elim t.trade_side [ exit ↦ true | _ ↦ false ]
  of_side symbol TradeSide.reverse t = same_string t.symbol symbol && false

  violation_of : Uuid → RuleContext D → ViolationSeverity → Violation D
  violation_of id ctx severity =
      build_violation id "Grid Trading" ViolationKind.grid_trading ctx severity

  -- An entry whose size is the first lost size times the multiplier, or more.
  escalates : D → D → Option D → Bool
  escalates multiplier newest none = false
  escalates multiplier newest (some first_loss) = le (mul first_loss multiplier) newest

  module _ (json : String → String → Option D) (lower : String → String) where
    knob : Option (RuleParams D) → String → Option D
    knob params key = and_then params (λ p. json p.params_json key)

    unfoldable pub effective_cv_threshold : Option (RuleParams D) → D
    unfolding knob
    effective_cv_threshold params = unwrap_or (knob params "cv_threshold") default_cv_threshold

    unfoldable pub effective_max_window_minutes : Option (RuleParams D) → ℤ
    unfolding knob
    effective_max_window_minutes params =
        unwrap_or
          (to_i64 (unwrap_or (knob params "max_window_minutes") (new default_max_window_minutes 0)))
          default_max_window_minutes

    unfoldable pub effective_escalation_losses : Option (RuleParams D) → ℕ
    unfolding knob at_least_one
    effective_escalation_losses params = at_least_one (
        to_i64
          (unwrap_or (knob params "escalation_losses") (new (pos default_escalation_losses) 0)))

    unfoldable pub effective_escalation_multiplier : Option (RuleParams D) → D
    unfolding knob
    effective_escalation_multiplier params =
        unwrap_or (knob params "escalation_multiplier") default_escalation_multiplier

    hard_by_number : Option D → Bool
    hard_by_number none = false
    hard_by_number (some v) = le (new (pos 1) 0) v

    hard_by_text : Option D → Option String → Bool
    unfolding hard_by_number
    hard_by_text number none = hard_by_number number
    hard_by_text number (some text) =
        if same_string (lower text) ""
        then hard_by_number number
        else same_string (lower text) "hard"

    unfoldable pub effective_severity : Option (RuleParams D) → ViolationSeverity
    unfolding hard_by_text
    effective_severity none = ViolationSeverity.warning
    effective_severity (some p) =
        if hard_by_text (json p.params_json "severity_hard") p.severity
        then ViolationSeverity.hard
        else ViolationSeverity.warning

    is_recent : Timestamp → ℤ → Trade D → Bool
    is_recent now minutes t =
        leb (now + neg_part minutes * nanos_per_minute)
          (t.executed_at + pos_part minutes * nanos_per_minute)

    is_uniform : Option (RuleParams D) → Option D → Bool
    unfolding effective_cv_threshold
    is_uniform params none = false
    is_uniform params (some cv) = lt cv (effective_cv_threshold params)

    unfoldable pub detect_grid : Option (RuleParams D) → RuleContext D → String → ℕ → Bool
    unfolding effective_max_window_minutes is_recent sort_by_time last_five gaps_of variation_of
        is_uniform
    detect_grid params ctx symbol min_entries =
        let minutes = effective_max_window_minutes params in
        let entries = sort_by_time (
          keep (λ t. of_side symbol entry t && is_recent ctx.server_time minutes t)
            ctx.today_trades) in
        if ltb (length entries) min_entries
        then false
        else is_uniform params (variation_of (gaps_of (last_five entries)))

    unfoldable pub detect_escalation : Option (RuleParams D) → RuleContext D → String → Bool
    unfolding effective_escalation_losses effective_escalation_multiplier sort_by_time loss_sizes
        last_size largest escalates
    detect_escalation params ctx symbol =
        let exits = sort_by_time (keep (of_side symbol exit) ctx.today_trades) in
        let sizes = loss_sizes (reverse exits) in
        let newest = largest nought (keep (of_side symbol entry) ctx.today_trades) in
        if ltb (length sizes) (effective_escalation_losses params)
        then false
        else escalates (effective_escalation_multiplier params) newest (last_size sizes)

    judge : Option (RuleParams D) → Uuid → RuleContext D → ℕ → Option (Order D) → RuleVerdict D
    unfolding detect_grid detect_escalation effective_severity violation_of
    judge params id ctx min_entries none = RuleVerdict.pass
    judge params id ctx min_entries (some order) =
        if detect_grid params ctx order.symbol min_entries
          || detect_escalation params ctx order.symbol
        then RuleVerdict.warn (violation_of id ctx (effective_severity params))
        else RuleVerdict.pass

    unfoldable pub evaluate : Option (RuleParams D) → Uuid → RuleContext D → Result (RuleVerdict D)
    unfolding effective_min_entries judge
    evaluate params id ctx =
        if ctx.account.plan.grid_trading_allowed
        then ok RuleVerdict.pass
        else effective_min_entries params >>= λ min_entries.
            ok (judge params id ctx min_entries ctx.pending_order)
