-- ===== src/State.antt =====
-- reliadl/state_manager.py: the session's state file, its backup and the chunk inventory. `Store`
-- has StateManager's reading and saving, `Inventory` the reconciliation with the part files,
-- `Loading`, `Saving` and `Recovery` the proofs about a save and the load after it, `Reconciled` and
-- `Settled` those about the reconciliation.
mod Store
mod Inventory
pub mod Loading
pub mod Reconciled
pub mod Settled
pub mod Saving
pub mod Recovery
unfoldable pub use Store.*
unfoldable pub use Inventory.*
