-- ===== src/Parser.antt =====
-- The parser of .zed files: src/rebac/schema/parser.py.
mod Stream
mod Outcome
mod Expr
mod Lexer
mod Subjects
pub mod Grammar
pub mod Spelling
pub mod Unions
unfoldable pub use Stream.*
unfoldable pub use Outcome.*
unfoldable pub use Lexer.*
unfoldable pub use Subjects.*
unfoldable pub use Expr.*
