-- ===== src/Residual.antt =====
-- The evaluator behind an uncertain point check: src/rebac/compile/evaluate.py, `_Evaluator`.
mod Rows
mod Names
pub mod Agreement
pub mod Ending
unfoldable pub use Rows.*
unfoldable pub use Names.*
