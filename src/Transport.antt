-- ===== src/Transport.antt =====
-- transport/tunnel.py: calls over a tunnel, and the routes of a node's calls.
pub mod Tunnels
pub mod Routers
pub mod Invariant
pub mod Answers
pub mod Routes
pub mod Changes
pub mod Announced
pub mod Behind
mod Examples
