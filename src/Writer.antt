-- ===== src/Writer.antt =====
-- reliadl/sparse_writer.py: the writer that puts the pieces of a download at their places in one
-- file. `System` has the calls of the operating system as a record of operations and laws, `Ops`
-- the writer, `Loop`, `Calls`, `Ranges` and `Reading` the proofs about its writes, `Allocation` and
-- `Creation` those about its constructor.
mod System
mod Ops
pub mod Loop
pub mod Calls
pub mod Ranges
pub mod Reading
pub mod Allocation
pub mod Creation
unfoldable pub use System.*
unfoldable pub use Ops.*
