-- ===== src/Walker.antt =====
-- The tri-state permission walker: src/rebac/schema/walker.py.
mod Tri
mod Defs
pub mod Meaning
pub mod Soundness
pub mod Totality
pub mod Subjects
unfoldable pub use Tri.*
unfoldable pub use Defs.*
