-- ===== src/Caveats.antt =====
-- Caveats and their evaluation: src/rebac/caveats.py.
mod Defs
pub mod Declared
pub mod Inputs
unfoldable pub use Defs.*
