-- ===== src/Core.antt =====
-- The domain model of src/core, and the plan that an account carries (src/config/plan.rs).
pub mod Ids
pub mod Violation
pub mod Trading
pub mod PayoutConfig
pub mod Calendar
pub mod Instrument
pub mod Plan
pub mod Account
pub mod Order
pub mod Liquidation
pub mod Events
