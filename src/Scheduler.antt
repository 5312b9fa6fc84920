-- ===== src/Scheduler.antt =====
-- reliadl/scheduling.py: the chunk-planning half of TransferScheduler, and plan_chunks and
-- _refill_queue of reliadl/download_engine.py, which use it. `Defs` has the fixed partition, the
-- concurrency floor, the batch loop and the resume loop; `Fixed`, `Floor`, `Batch`, `Refill` and
-- `Advance` the proofs about each. Mirror routing is left out.
mod Defs
pub mod Fixed
pub mod Floor
pub mod Batch
pub mod Refill
pub mod Advance
unfoldable pub use Defs.*
