-- ===== src/Rendering.antt =====
-- Canonical source text: src/rebac/schema/rendering.py.
mod Defs
pub mod Lexing
pub mod RoundTrip
pub mod Pieces
pub mod Subjects
unfoldable pub use Defs.*
