-- ===== src/Worker/Overlap.antt =====
-- executors/worker.py: a pipeline of workers in which the micro-batches of a batch overlap.
pub mod Streams
pub mod Live
pub mod Served
pub mod Fed
pub mod Feeding
pub mod Ends
pub mod Losses
pub mod Swaps
pub mod Runs
mod Examples
