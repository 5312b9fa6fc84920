-- ===== src/Engine.antt =====
-- reliadl/download_engine.py: the fetch of a chunk, its retries, and what a resume keeps. `Errors`
-- has the classes of exceptions and the comparison of digests, `Fetch` one request, `Retry` the
-- loop over requests, `Resume` the checks of a resumed session; the others prove. HTTP is a
-- parameter: an exchange is a response with the blocks of its body, or a failure of the transport.
mod Errors
mod Body
mod Fetch
mod Retry
mod Resume
pub mod Writes
mod Blocks
mod Received
mod Finished
pub mod Fetched
pub mod Prefix
pub mod Causes
pub mod Retried
pub mod Attempts
pub mod Workers
pub mod Whole
pub mod Liveness
pub mod Demoted
pub mod Resumed
pub mod Reads
unfoldable pub use Errors.*
unfoldable pub use Body.*
unfoldable pub use Fetch.*
unfoldable pub use Resume.*
unfoldable pub use Retry.*
