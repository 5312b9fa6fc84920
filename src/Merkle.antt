-- ===== src/Merkle.antt =====
-- reliadl/manifest.py: the Merkle tree over the digests of a manifest's chunks. `Encoding` has
-- hexadecimal, UTF-8 and big-endian text, `Tree` the tree with its audit paths and their check,
-- `Hex`, `Climb` and `Paths` the proofs. SHA-256 is a parameter.
mod Encoding
mod Tree
mod Hex
pub mod Climb
pub mod Paths
unfoldable pub use Encoding.*
unfoldable pub use Tree.*
