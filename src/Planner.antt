-- ===== src/Planner.antt =====
-- reliadl/algorithms/adaptive_chunker.py: DynamicChunkPlanner, which cuts a file into chunks one at
-- a time. `Cursor` has the state and the operations; `Tiling` what a partition is; `Steps` the
-- proofs about one chunk, `Drain` those about the loop that empties the planner, `Restore` the
-- rest. The lock is not modelled: each method is one critical section.
mod Cursor
pub mod Tiling
pub mod Steps
pub mod Drain
pub mod Restore
unfoldable pub use Cursor.*
