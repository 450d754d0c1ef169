-- ===== src/Conditions.antt =====
-- Conditions on rows in a predicate with two bounds: src/rebac/compile/conditions.py.
mod Defs
pub mod Bounds
unfoldable pub use Defs.*
