-- ===== src/Stream.antt =====
-- reliadl/manifest.py: the validator that checks a chunk's sub-blocks while it arrives. `Validator`
-- has SubBlockStreamValidator, `Blocks` and `Segments` the proof that how the stream is cut into
-- calls does not matter. SHA-256 is a parameter, and the incremental hash is the bytes fed to it.
mod Validator
mod Blocks
pub mod Segments
unfoldable pub use Validator.*
