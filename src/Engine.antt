-- ===== src/Engine.antt =====
-- src/engine: the state transitions, the decision, and the pipeline that composes them.
pub mod Override
pub mod State
pub mod Decision
pub mod Pipeline
