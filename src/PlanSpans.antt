-- ===== src/PlanSpans.antt =====
-- The spans of a plan: the walk of src/postgres.rs over the plan's nodes, and the span that
-- src/span.rs builds for each.
pub mod State
pub mod Children
pub mod Node
pub mod Collect
pub mod Connected
mod Tests
