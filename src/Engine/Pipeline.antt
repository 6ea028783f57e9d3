-- ===== src/Engine/Pipeline.antt =====
-- engine/pipeline.rs: how one event goes through the engine.
pub mod Apply
pub mod Applied
pub mod Rollover
pub mod Events
pub mod Process
mod Examples
mod Packs
mod Decided
