-- ===== src/Rules/Evaluators.antt =====
-- rules/evaluators: the rules other than the two drawdown limits.
pub mod Consistency
pub mod Cooldown
pub mod CopyTrading
pub mod CrossAccountHedging
pub mod GridTrading
pub mod Hedging
pub mod HftScalping
pub mod Inactivity
pub mod LowcapExposure
pub mod Margin
pub mod MaxDailyTrades
pub mod MaxOpenPositions
pub mod MaxPositionSize
pub mod MaxTotalLots
pub mod MinProfitableDays
pub mod MinTradingDays
pub mod NewsTrading
pub mod OvernightHolding
pub mod PerTradeMaxLoss
pub mod ProfitTarget
pub mod StopLossRequired
pub mod TakeProfitRequired
pub mod TimeLimit
pub mod TradingHours
pub mod TrailingDrawdown
pub mod WeekendHolding
