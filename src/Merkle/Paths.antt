-- ===== src/Merkle/Paths.antt =====
-- Every leaf's audit path leads to the root, and the tree can always be built.
use relia_dl.Prelude.{
  ℕ, zero, suc, ◌+◌, ◌^◌, ◌<◌, ◌≡◌, ◌≢◌, refl, sym, ap, ◌∙◌, true, List, [], ◌∷◌, ◌++◌, length,
  get_or, get_elem?, arith, All, some, none, lt→ltb, le→ltb_false,
}
use relia_dl.Prelude.Int.{pos}
use relia_dl.Prelude.Results.{ok}
use relia_dl.Prelude.Text.{Text, strip, lower}
use relia_dl.Prelude.Ids.{text_eq_self}
use relia_dl.Merkle.Encoding.{Bytes, to_hex, to_bytes8, big_endian}
use relia_dl.Merkle.Tree.{
  ChunkHash, Side, BinaryMerkleTree, audit_path, get_proof, leaf_bytes, hash_leaf, hash_root,
  build_levels, top_of, hash_leaves, grow_tree, new_tree, climb, matches, verify_inclusion,
}
use relia_dl.Merkle.Hex.{clean-to_hex}
use relia_dl.Merkle.Climb.{IsDigest, build_levels-Ascends}

none≢some : {A : Type 0} {a : A} → none ≢ some a
none≢some {A} {a} e = absurd (omega (arith, ap {B = ℕ} (λ o. elim o [ none ↦ 0 | some x ↦ 1 ]) e))

get_elem?-lt : {A : Type 0} (xs : List A) (i : ℕ) (x : A) → get_elem? xs i ≡ some x → i < length xs
get_elem?-lt [] i x e = absurd (none≢some e)
get_elem?-lt (y ∷ ys) zero x e = omega arith
get_elem?-lt (y ∷ ys) (suc i) x e = omega (arith, get_elem?-lt ys i x e)

-- A chunk hash that hash_leaf accepts.
abbrev pub IsReadable : ChunkHash → Type 0
IsReadable h = (b : Bytes) × (leaf_bytes h ≡ ok b)

module _ (sha256 : Bytes → Bytes) where
  module _ (sha256-IsDigest : (m : Bytes) → IsDigest (sha256 m)) where
    hash_leaf-IsDigest :
        (h : ChunkHash) (b : Bytes) → leaf_bytes h ≡ ok b → hash_leaf sha256 h ≡ ok (sha256 (0 ∷ b))
    unfolding hash_leaf
    hash_leaf-IsDigest h b e = rw e refl

    abbrev Each : List ChunkHash → List Bytes → Type 0
    Each hs leaves =
        (i : ℕ) (h : ChunkHash)
        → get_elem? hs i ≡ some h
        → hash_leaf sha256 h ≡ ok (get_or leaves i [])

    Each-cons :
        (h : ChunkHash) (l : Bytes) (hs : List ChunkHash) (leaves : List Bytes)
        → hash_leaf sha256 h ≡ ok l
        → Each hs leaves
        → Each (h ∷ hs) (l ∷ leaves)
    Each-cons h l hs leaves first later zero g e =
        ap (hash_leaf sha256) (sym (ap (λ o. elim o [ none ↦ h | some x ↦ x ]) e)) ∙ first
    Each-cons h l hs leaves first later (suc i) g e = later i g e

    hash_root-IsDigest :
        (top : Bytes) (count : ℕ)
        → count < 2 ^ 64
        → (d : Bytes) × (hash_root sha256 top count ≡ ok d) × IsDigest d
    unfolding hash_root to_bytes8
    hash_root-IsDigest top count h =
        let d = sha256 (2 ∷ big_endian 8 count [] ++ top) in
        (d, rw (lt→ltb count (2 ^ 64) h) refl, sha256-IsDigest _)

    matches-hash_root :
        (top d : Bytes) (count : ℕ)
        → hash_root sha256 top count ≡ ok d
        → IsDigest d
        → matches sha256 top (lower (strip (to_hex d))) count ≡ ok true
    unfolding matches
    matches-hash_root top d count e h = rw (clean-to_hex d h, e, text_eq_self (to_hex d)) refl

    hash_leaves-All :
        (hs : List ChunkHash)
        → All IsReadable hs
        → (leaves : List Bytes) × (hash_leaves sha256 hs ≡ ok leaves)
          × (length leaves ≡ length hs)
          × All IsDigest leaves
          × Each hs leaves
    unfolding hash_leaves
    hash_leaves-All [] fine = ([], refl, refl, tt, λ i h e. absurd (none≢some e))
    hash_leaves-All (h ∷ hs) ((b, read), fine) =
        let (leaves, run, size, digests, each) = hash_leaves-All hs fine in
        (
          sha256 (0 ∷ b) ∷ leaves,
          rw (hash_leaf-IsDigest h b read, run) refl,
          ap suc size,
          (sha256-IsDigest (0 ∷ b), digests),
          Each-cons h (sha256 (0 ∷ b)) hs leaves (hash_leaf-IsDigest h b read) each,
        )

    -- The tree over some chunk hashes, and how it answers for each of them.
    abbrev pub IsAccepted : List ChunkHash → BinaryMerkleTree → Type 0
    IsAccepted hs t =
        (i : ℕ) (h : ChunkHash)
        → get_elem? hs i ≡ some h
        → (path : List (Text × Side)) × (get_proof (pos i) t ≡ ok path)
          × (verify_inclusion sha256 h path t.root (some (length hs)) ≡ ok true)

    abbrev tree_of : List Bytes → List (List Bytes) → Bytes → BinaryMerkleTree
    tree_of leaves above d = record {
      levels = leaves ∷ above;
      leaf_nodes = leaves;
      tree_root = top_of sha256 (leaves ∷ above);
      root = to_hex d;
    }

    new_tree-tree_of :
        (h : ChunkHash) (hs : List ChunkHash) (leaves : List Bytes) (above : List (List Bytes))
        (d : Bytes)
        → hash_leaves sha256 (h ∷ hs) ≡ ok leaves
        → build_levels sha256 (length leaves) leaves ≡ some (leaves ∷ above)
        → hash_root sha256 (top_of sha256 (leaves ∷ above)) (length leaves) ≡ ok d
        → new_tree sha256 (h ∷ hs) ≡ some (ok (tree_of leaves above d))
    unfolding new_tree grow_tree
    new_tree-tree_of h hs leaves above d hashed built rooted =
        rw (new_tree, hashed, built, grow_tree, rooted) refl

    tree_of-IsAccepted :
        (hs : List ChunkHash) (leaves : List Bytes) (above : List (List Bytes)) (d : Bytes)
        → length leaves ≡ length hs
        → Each hs leaves
        → ((i : ℕ)
            → i < length leaves
            → climb sha256 (get_or leaves i []) (audit_path (leaves ∷ above) i)
              ≡ ok (top_of sha256 (leaves ∷ above)))
        → hash_root sha256 (top_of sha256 (leaves ∷ above)) (length leaves) ≡ ok d
        → IsDigest d
        → IsAccepted hs (tree_of leaves above d)
    unfolding get_proof verify_inclusion
    tree_of-IsAccepted hs leaves above d size each climbs rooted digest i h found =
        let inside : i < length leaves = omega (arith, get_elem?-lt hs i h found, size) in
        (
          audit_path (leaves ∷ above) i,
          rw (le→ltb_false (i + 0) 0 (omega arith), lt→ltb i (length leaves) inside) refl,
          rw (each i h found, climbs i inside, ← size)
              (matches-hash_root (top_of sha256 (leaves ∷ above)) d (length leaves) rooted digest),
        )

    -- Round trip: for at least one and fewer than 2 ^ 64 readable chunk hashes, with a hash
    -- function whose results are bytes, the tree is built, get_proof gives an audit path for every
    -- chunk, and verify_inclusion accepts that chunk's hash with this path, the tree's root and its
    -- leaf count.
    pub verify_inclusion-get_proof :
        (hs : List ChunkHash)
        → 0 < length hs
        → length hs < 2 ^ 64
        → All IsReadable hs
        → (t : BinaryMerkleTree) × (new_tree sha256 hs ≡ some (ok t)) × IsAccepted hs t
    verify_inclusion-get_proof [] some_hash few fine = absurd (omega arith)
    verify_inclusion-get_proof (h ∷ hs) some_hash few fine =
        let (leaves, hashed, size, digests, each) = hash_leaves-All (h ∷ hs) fine in
        let (above, built, climbs) =
          build_levels-Ascends sha256 sha256-IsDigest (length leaves) leaves (omega (arith, size))
            (omega arith) digests in
        let (d, rooted, digest) =
          hash_root-IsDigest (top_of sha256 (leaves ∷ above)) (length leaves)
            (omega (arith, size)) in
        (
          tree_of leaves above d,
          new_tree-tree_of h hs leaves above d hashed built rooted,
          tree_of-IsAccepted (h ∷ hs) leaves above d size each climbs rooted digest,
        )
