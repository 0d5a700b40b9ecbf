-- ===== src/Sanitize.antt =====
-- src/sanitize.rs: the query text that a span may show.
pub mod Statement
pub mod Tokens
pub mod Quiet
pub mod Compact
pub mod Render
pub mod Truncate
pub mod Export
mod Tests
