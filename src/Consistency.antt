-- ===== src/Consistency.antt =====
-- The freshness token of a scope: src/rebac/consistency.py.
mod Defs
pub mod Latest
unfoldable pub use Defs.*
