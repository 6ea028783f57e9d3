-- ===== src/Engine/State/Examples.antt =====
-- The state transitions on concrete accounts.
use propfirm_engine.Base.{◌≡◌, refl, true, false, List, [], ◌∷◌, map, arith, add_u32}
use propfirm_engine.Decimal.Scaled.{Scaled, scaled_decimal, Scaled-IsOrdered}
use propfirm_engine.Fixtures.{calendar, account, money, noon}
use propfirm_engine.Core.Account.{Account}
use propfirm_engine.Engine.State.Peaks.{reports, reports_peaks, IsPeakOf}
use propfirm_engine.Engine.State.Days.{TradingDay, pass_days, traded_days, active_days-pass_days}

-- Two broker reports: up to 104000, then down to 99000.
abbrev swings : List (Scaled × Scaled)
swings = (money 104000, money 100000) ∷ (money 99000, money 101000) ∷ []

reports_peaks_example :
    let b = reports account swings in
    IsPeakOf b.peak_equity (account.peak_equity ∷ map (λ r. r.0) swings)
    × IsPeakOf b.intraday_peak_equity (account.intraday_peak_equity ∷ map (λ r. r.0) swings)
    × IsPeakOf b.peak_balance (account.peak_balance ∷ map (λ r. r.1) swings)
reports_peaks_example = reports_peaks Scaled-IsOrdered account swings

-- A day with two fills, one without, and one that only its rollover knows to have had trades.
abbrev days : List TradingDay
days =
    record { fill_count = 2; had_trades = true; clock = noon 11 }
    ∷ record { fill_count = 0; had_trades = false; clock = noon 12 }
    ∷ record { fill_count = 0; had_trades = true; clock = noon 13 }
    ∷ []

abbrev uncounted : Account Scaled
uncounted = record account { day_counted_today = false }

active_days-pass_days_example :
    (pass_days uncounted days).active_trading_days ≡ add_u32 1 (traded_days days)
active_days-pass_days_example = active_days-pass_days uncounted days refl (omega arith)

two_days : traded_days days ≡ 2
two_days = refl
