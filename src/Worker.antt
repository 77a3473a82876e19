-- ===== src/Worker.antt =====
-- executors/worker.py: one worker, which runs one slice for the coordinator and its neighbors.
pub mod Wire
pub mod Frames
pub mod Arrivals
pub mod Bytes
pub mod Heads
pub mod Cuts
pub mod Delivery
pub mod Messages
pub mod Dispatch
pub mod Connections
pub mod Stages
pub mod Dicts
pub mod Pipeline
pub mod SentBack
pub mod Overlap
pub mod Pairs
pub mod Meets
pub mod Once
pub mod TiedSync
pub mod HandOver
pub mod Pushes
pub mod Synced
mod Examples
mod Rounds
mod Sharing
