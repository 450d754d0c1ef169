-- ===== src/Preflight.antt =====
-- Checks of a resource that is not stored yet: src/rebac/preflight.py.
mod Defs
pub mod Agreement
pub mod Granting
unfoldable pub use Defs.*
