-- ===== src/Rules.antt =====
-- src/rules: verdicts and contexts, and the rules that are modelled.
pub mod Verdict
pub mod Params
pub mod Config
pub mod Context
pub mod MaxDrawdown
pub mod DailyDrawdown
pub mod Registry
pub mod Evaluators
pub mod Library
pub mod Pack
pub mod Defaults
mod Examples
