-- ===== src/Lib.antt =====
-- Verification library of the prop-firm rule engine (the Rust crate under src/).
--
-- The engine is stateless: a caller hands it an account and an event, and gets back the account after
-- the event with a decision and the domain events. An event first rolls over the trading days that
-- have passed, then changes the account, then the rules are evaluated on a context built from the
-- account and the event, their reports become one decision, and the decision is applied to the
-- account. The library follows that path.
--
-- Files, and the code that they model:
--   Core/Ids, Core/Violation, Core/Trading, Core/Order, Core/Events, Core/Liquidation, Core/Account:
--     src/core (ids, types, violation, trade, position, tick, order, events, account) and
--     src/liquidation.rs. An account is the record of the struct Account with all its fields.
--   Core/Instrument: src/core/instrument.rs.
--   Core/Plan, Core/PayoutConfig, Core/Calendar: src/config/plan.rs, the configuration types of
--     src/payout.rs, and the calendar of chrono and chrono-tz as a parameter.
--   Decimal, Decimal/Scaled: rust_decimal as a parameter, with its order (IsOrdered) and the
--     monotony of its arithmetic (IsMonotone) as named hypotheses, and a concrete instance of four
--     places that satisfies them.
--   Rules: src/rules/traits.rs, context.rs, params.rs and src/equity_input.rs (Verdict, Params,
--     Context); src/config/rule_config.rs (Config); src/rules/evaluators/max_drawdown.rs (MaxDrawdown)
--     and daily_drawdown.rs (DailyDrawdown); the other evaluators under src/rules/evaluators
--     (Evaluators, one module for each rule; plan_caps.rs is MaxTotalLots, TradingHours and Margin);
--     src/rules/registry.rs (Registry, its Index, Removal and Estimates; Library, the rules as values
--     of the interface; Defaults, the default rules, the rules of a plan and of a pack, with what
--     these registries do on an estimated equity and on a submitted order);
--     src/rulepack.rs (Pack).
--   RegistryCache: src/registry_cache.rs; Sound is when a plan is given its own rules, Stale when not.
--   Api/Idempotency: src/api/idempotency.rs and src/sha256_helper.rs. Queue is the queue of entries
--     that the store implements, Refines the refinement, Keys the keys and digests, Origins where a
--     replayed response comes from, Replays the answer to a retry.
--   Payout: src/payout.rs (trader_share_for, quote_payout, record_payout).
--   Engine/Override: src/override_engine.rs. Engine/State: src/engine/state.rs, the methods of
--     AccountState as functions on accounts. Engine/Decision: src/engine/decision.rs, from_reports.
--   Engine/Pipeline: src/engine/pipeline.rs. Apply is apply_decision, Rollover the automatic rollover,
--     Events the events and apply_event, Process the function process_with_loaded_account.
--   Fixtures, and the modules named Examples, Decided, Packs and Orders: concrete data, tests and witnesses.
--
-- Conventions. Numbers are natural numbers; a u32 that is increased by += wraps, one increased by
-- saturating_add stops at the greatest u32. A Timestamp is a number of nanoseconds. A HashMap is an
-- association list, a UUID a number; a fresh UUID is an argument of the operation that draws it. All
-- readings of the wall clock in one call are one argument. A Result is ok or one of the variants of
-- Error without its text; a panic is the variant panicked.
--
-- Fuel. The only loop without a structural bound is that of the automatic rollover. Its fuel is the
-- distance in time from the current trading day to the day of the event, which each round shortens,
-- since the calendar puts the next reset after the current one.
--
-- The event store, the notifier and the rules are parameters of the pipeline (Services); with_registry
-- puts the registry in the place of the rules. The calendar's laws (IsCalendar) say that the reset
-- hour on the next local date is later than any instant of this date and belongs to that date. The
-- rules take from outside (Outside) the ids of their names, the numbers in a JSON text, lower case and
-- the clock; the store takes (Environment) the text of a UUID and the SHA-256 digest; the cache takes
-- its hasher.
--
-- Not modelled: texts of messages, display names and the metadata of plans and reports; overflow of
-- decimals; local times that a change of the clocks makes ambiguous, and reset hours past 23, on both
-- of which the code panics; ids and causation of domain events; the snapshot of an account; the
-- content hash and the JSON text of packs; risk metrics; the configuration presets, which are data;
-- the HTTP interface, its audit log and its metrics, which are input and output around the engine; two
-- threads that build the same registry at once.
pub mod Api
pub mod Base
pub mod Decimal
pub mod Core
pub mod Rules
pub mod RegistryCache
pub mod Payout
pub mod Engine
pub mod Fixtures
