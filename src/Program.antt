-- ===== src/Program.antt =====
-- The dependency graph of a schema: src/rebac/compile/program.py.
mod Defs
pub mod Polarity
unfoldable pub use Defs.*
