-- ===== src/Composition.antt =====
-- The layer of schema overrides over the baseline: src/rebac/composition.py.
mod Defs
pub mod Order
pub mod Permissions
pub mod Caveats
mod Schemas
pub mod Shape
unfoldable pub use Defs.*
unfoldable pub use Schemas.*
