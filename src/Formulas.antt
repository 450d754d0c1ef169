-- ===== src/Formulas.antt =====
-- Caveat formulas and their three-valued results: src/rebac/compile/formulas.py.
mod Defs
mod Combining
pub mod Joining
pub mod Paths
pub mod Minimal
pub mod Deciding
pub mod Bounds
pub mod Absorbing
pub mod Combined
unfoldable pub use Defs.*
unfoldable pub use Combining.*
