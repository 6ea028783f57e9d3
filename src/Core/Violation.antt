-- ===== src/Core/Violation.antt =====
-- core/violation.rs. The formatted `message` of a violation is left out.
use propfirm_engine.Base.{ℕ, String, Bool, true, false, Option, some, if◌then◌else◌}
use propfirm_engine.Decimal.{Decimal}
use propfirm_engine.Core.Ids.{Uuid, Timestamp}

pub data ViolationSeverity : Type 0 where
  info warning hard liquidate : ViolationSeverity

-- The derived `Ord`: declaration order.
unfoldable pub severity_rank : ViolationSeverity → ℕ
severity_rank info = 0
severity_rank warning = 1
severity_rank hard = 2
severity_rank liquidate = 3

pub data ViolationKind : Type 0 where
  daily_drawdown max_drawdown trailing_drawdown profit_target_missed : ViolationKind
  min_trading_days min_profitable_days consistency news_trading : ViolationKind
  overnight_holding weekend_holding max_position_size max_lot_size : ViolationKind
  max_open_positions max_daily_trades time_limit cooldown hedging : ViolationKind
  grid_trading copy_trading missing_stop_loss missing_take_profit : ViolationKind
  cross_account_hedging lowcap_exposure custom : ViolationKind

pub record Violation (D : Type 0) : Type 0 where
  pub id : Uuid
  pub account_id : Uuid
  pub tenant_id : Uuid
  pub rule_name : String
  pub kind : ViolationKind
  pub severity : ViolationSeverity
  pub occurred_at : Timestamp
  pub breach_value : Option D
  pub threshold_value : Option D
  pub utilization : Option D

abbrev by_severity : ViolationSeverity → Bool
by_severity hard = true
by_severity liquidate = true
by_severity _ = false

unfoldable pub is_terminating : {D : Type 0} → Violation D → Bool
is_terminating v = by_severity v.severity

module _ {D : Type 0} ⦃d : Decimal D⦄ where
  -- `with_breach`
  unfoldable pub with_breach : Violation D → D → D → Violation D
  with_breach v breach threshold = record v {
    breach_value = some breach;
    threshold_value = some threshold;
    utilization = if d.is_zero threshold then v.utilization else some (d.div breach threshold);
  }
