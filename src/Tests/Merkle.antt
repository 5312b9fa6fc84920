-- ===== src/Tests/Merkle.antt =====
-- A tree of three leaves, with a checksum for the hash function.
use native.Mathlib.Nat.{mod-lt}
use relia_dl.Prelude.{ℕ, ◌+◌, ◌%◌, ◌≡◌, refl, some, List, [], ◌∷◌, length, arith, All}
use relia_dl.Prelude.Results.{ok}
use relia_dl.Merkle.{Bytes, ChunkHash, BinaryMerkleTree, new_tree, leaf_bytes}
use relia_dl.Merkle.Climb.{IsDigest}
use relia_dl.Merkle.Paths.{IsReadable, IsAccepted, verify_inclusion-get_proof}

abbrev total : Bytes → ℕ
total [] = 0
total (b ∷ bs) = b + total bs

abbrev pub checksum : Bytes → Bytes
checksum m = total m % 256 ∷ length m % 256 ∷ []

checksum-IsDigest : (m : Bytes) → IsDigest (checksum m)
checksum-IsDigest m = (mod-lt (total m) (omega arith), (mod-lt (length m) (omega arith), tt))

abbrev three : List ChunkHash
three = ChunkHash.raw (1 ∷ []) ∷ ChunkHash.raw (2 ∷ []) ∷ ChunkHash.raw (3 ∷ []) ∷ []

three-All : All IsReadable three
unfolding leaf_bytes
three-All = ((1 ∷ [], refl), ((2 ∷ [], refl), ((3 ∷ [], refl), tt)))

verify_inclusion-get_proof_example :
    (t : BinaryMerkleTree) × (new_tree checksum three ≡ some (ok t))
    × IsAccepted checksum checksum-IsDigest three t
verify_inclusion-get_proof_example =
    verify_inclusion-get_proof checksum checksum-IsDigest three (omega arith) (omega arith)
      three-All
