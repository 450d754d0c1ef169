-- ===== src/Actors.antt =====
-- Actors and authority: the anonymous actor, the ambient actor and bypass with their scopes, the
-- resolution of authority (src/rebac/actors.py), and the wire type prefix (src/rebac/_id.py).
mod Defs
mod Scopes
pub mod Authority
pub mod Nesting
unfoldable pub use Defs.*
unfoldable pub use Scopes.*
