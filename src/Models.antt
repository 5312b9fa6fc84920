-- ===== src/Models.antt =====
-- reliadl/models.py: the chunk and session records that the components pass around. `Status` has
-- the two enums, `Chunk` the chunk specification and the mutable chunk state, `Session` the
-- statistics and the session state, `Laws` the proofs. Timestamps and JSON are left out.
mod Status
mod Chunk
mod Session
pub mod Laws
unfoldable pub use Status.*
unfoldable pub use Chunk.*
unfoldable pub use Session.*
