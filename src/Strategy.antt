-- ===== src/Strategy.antt =====
-- strategies/: how a model graph is turned into partitions, and when partitions are accepted.
pub mod Base
pub mod Tiles
mod Validate
pub mod Accepts
pub mod Boundaries
pub mod FromCuts
pub mod Uniform
pub mod Named
pub mod Balance
pub mod Costed
pub mod Recovery
mod Examples
