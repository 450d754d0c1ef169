-- ===== src/Types.antt =====
-- Subject and resource references, check results and consistency tokens, with their wire forms:
-- src/rebac/types.py.
pub mod Split
mod Defs
mod Instances
pub mod RoundTrip
unfoldable pub use Defs.*
pub use Instances.*
