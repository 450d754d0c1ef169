-- ===== src/Evaluator.antt =====
-- The cache of answered checks of one scope: src/rebac/evaluator.py.
mod Defs
pub mod Cache
pub mod Visibility
pub mod Recalling
pub mod Budget
unfoldable pub use Defs.*
