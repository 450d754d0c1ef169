-- ===== src/Schema.antt =====
-- The schema language: its syntax tree (src/rebac/schema/ast.py) and the look-ups in it.
mod Ast
pub mod Documents
pub mod Persisted
pub mod Validation
pub mod Resolving
pub mod Naming
unfoldable pub use Ast.*
