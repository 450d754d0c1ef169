-- ===== src/Bdd.antt =====
-- The reduced ordered Boolean diagram of src/rebac/compile/evaluate.py (`_BDD`).
mod Defs
pub mod Order
pub mod Unique
pub mod Cofactor
pub mod Merge
pub mod Apply
pub mod Negate
pub mod Canonical
pub mod Comparing
mod Search
pub mod Reaching
pub mod Support
unfoldable pub use Defs.*
unfoldable pub use Search.*
