-- ===== src/Tests.antt =====
-- Runs of the model on concrete inputs, and each theorem applied at an input that meets its
-- hypotheses.
mod Types
mod Actors
mod Walker
mod Parser
mod Bdd
mod Composition
mod Scopes
mod Graph
mod Caveats
mod Schemas
mod Preflight
mod Residual
mod Combining
mod Visibility
