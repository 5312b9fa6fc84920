-- ===== src/Merkle/Tree.antt =====
-- hash_leaf, hash_parent, hash_root, compute_merkle_root and BinaryMerkleTree.
use relia_dl.Prelude.{
  ℕ, zero, suc, ◌+◌, ◌-◌, ◌/◌, ◌%◌, ◌^◌, Bool, true, false, Option, none, some, List, [], ◌∷◌, ◌++◌,
  length, get_or, ltb, ◌==◌, if◌then◌else◌,
}
use relia_dl.Prelude.Int.{ℤ, pos, ltb_ℤ, pos_part}
use relia_dl.Prelude.Results.{Result, ok, err, value_error, index_error, raise_if, ◌>>=◌, ◌>>◌}
use relia_dl.Prelude.Text.{Text, strip, lower, text_eq}
use relia_dl.Merkle.Encoding.{Bytes, to_hex, from_hex, encode_utf8, to_bytes8}

-- A chunk hash: a hexadecimal string or a raw digest.
pub data ChunkHash : Type 0 where
  text : Text → ChunkHash
  raw : Bytes → ChunkHash

pub data Side : Type 0 where
  left right : Side

pub record BinaryMerkleTree : Type 0 where
  pub levels : List (List Bytes)
  pub leaf_nodes : List Bytes
  pub tree_root : Bytes
  pub root : Text

-- The text has no lone surrogates, which have no UTF-8.
unfoldable pub leaf_bytes : ChunkHash → Result Bytes
leaf_bytes (raw b) = ok b
leaf_bytes (text t) =
    let cleaned = lower (strip t) in
    if length cleaned == 64 then from_hex cleaned else ok (encode_utf8 cleaned)

-- The sibling that get_proof reads at position `i` of a level.
unfoldable pub audit_step : List Bytes → ℕ → Text × Side
audit_step level i =
    if i % 2 == 0
    then (to_hex (get_or level (if ltb (i + 1) (length level) then i + 1 else i) []), right)
    else (to_hex (get_or level (i - 1) []), left)

-- The loop of get_proof over `self._levels[:-1]`.
unfoldable pub audit_path : List (List Bytes) → ℕ → List (Text × Side)
unfolding audit_step
audit_path [] i = []
audit_path (top ∷ []) i = []
audit_path (level ∷ next ∷ above) i = audit_step level i ∷ audit_path (next ∷ above) (i / 2)

unfoldable pub get_proof : ℤ → BinaryMerkleTree → Result (List (Text × Side))
get_proof i t = do
  raise_if (ltb_ℤ i (pos 0)) index_error
  raise_if (if ltb (pos_part i) (length t.leaf_nodes) then false else true) index_error
  ok (audit_path t.levels (pos_part i))

module _ (sha256 : Bytes → Bytes) where
  unfoldable pub hash_leaf : ChunkHash → Result Bytes
  unfolding leaf_bytes
  hash_leaf h = leaf_bytes h >>= λ raw. ok (sha256 (0 ∷ raw))

  unfoldable pub hash_parent : Bytes → Bytes → Bytes
  hash_parent l r = sha256 (1 ∷ l ++ r)

  unfoldable pub hash_root : Bytes → ℕ → Result Bytes
  hash_root top count = to_bytes8 count >>= λ n. ok (sha256 (2 ∷ n ++ top))

  -- One round of the level loop: neighbours joined, the last one with itself when it is alone.
  unfoldable pub next_level : List Bytes → List Bytes
  unfolding hash_parent
  next_level [] = []
  next_level (l ∷ []) = hash_parent l l ∷ []
  next_level (l ∷ r ∷ rest) = hash_parent l r ∷ next_level rest

  -- `while len(current) > 1`, with the levels from `current` up; `none` when the fuel runs out.
  unfoldable pub build_levels : ℕ → List Bytes → Option (List (List Bytes))
  unfolding next_level
  build_levels zero current = none
  build_levels (suc fuel) [] = some ([] ∷ [])
  build_levels (suc fuel) (n ∷ []) = some ((n ∷ []) ∷ [])
  build_levels (suc fuel) (l ∷ r ∷ rest) = elim (build_levels fuel (next_level (l ∷ r ∷ rest))) [
    | none ↦ none
    | some above ↦ some ((l ∷ r ∷ rest) ∷ above)
  ]

  unfoldable pub top_of : List (List Bytes) → Bytes
  top_of [] = []
  top_of (level ∷ []) = get_or level 0 []
  top_of (level ∷ next ∷ above) = top_of (next ∷ above)

  unfoldable pub hash_leaves : List ChunkHash → Result (List Bytes)
  unfolding hash_leaf
  hash_leaves [] = ok []
  hash_leaves (h ∷ hs) = hash_leaf h >>= λ l. hash_leaves hs >>= λ ls. ok (l ∷ ls)

  unfoldable pub grow_tree : List Bytes → List (List Bytes) → Result BinaryMerkleTree
  unfolding top_of hash_root
  grow_tree leaves levels = do
    r ← hash_root (top_of levels) (length leaves)
    ok (record { levels = levels; leaf_nodes = leaves; tree_root = top_of levels; root = to_hex r })

  -- BinaryMerkleTree.__init__: a level is at most half of the one below, rounded up, so the fuel of
  -- one round per leaf is enough.
  unfoldable pub new_tree : List ChunkHash → Option (Result BinaryMerkleTree)
  new_tree [] = some (err value_error)
  new_tree (h ∷ hs) = elim (hash_leaves (h ∷ hs)) [
    | err e ↦ some (err e)
    | ok leaves ↦ elim (build_levels (length leaves) leaves) [
      | none ↦ none
      | some levels ↦ some (grow_tree leaves levels)
    ]
  ]

  unfoldable pub compute_merkle_root : List ChunkHash → Option (Result Text)
  unfolding new_tree
  compute_merkle_root [] = some (ok [])
  compute_merkle_root (h ∷ hs) = elim (new_tree (h ∷ hs)) [
    | none ↦ none
    | some r ↦ some (r >>= λ t. ok t.root)
  ]

  -- The loop of verify_inclusion up the path.
  unfoldable pub climb : Bytes → List (Text × Side) → Result Bytes
  unfolding hash_parent
  climb current [] = ok current
  climb current ((sibling, left) ∷ path) =
      from_hex sibling >>= λ s. climb (hash_parent s current) path
  climb current ((sibling, right) ∷ path) =
      from_hex sibling >>= λ s. climb (hash_parent current s) path

  -- The root of a manifest is ASCII text: on other text, compare_digest raises TypeError.
  unfoldable pub matches : Bytes → Text → ℕ → Result Bool
  unfolding hash_root
  matches current target count = hash_root current count >>= λ r. ok (text_eq (to_hex r) target)

  -- The loop over the candidates `from`, `from + 1`, ..., as many as the first argument.
  unfoldable pub any_count : ℕ → ℕ → Bytes → Text → Result Bool
  unfolding matches
  any_count zero from current target = ok false
  any_count (suc more) from current target = matches current target from >>= λ hit.
      let rest = any_count more (from + 1) current target in if hit then ok true else rest

  unfoldable pub fewest : ℕ → ℕ
  fewest zero = 1
  fewest (suc d) = 2 ^ d + 1

  -- verify_inclusion
  unfoldable pub verify_inclusion : ChunkHash → List (Text × Side) → Text → Option ℕ → Result Bool
  unfolding hash_leaf climb matches any_count fewest
  verify_inclusion hash path expected count = do
    leaf ← hash_leaf hash
    current ← climb leaf path
    let target = lower (strip expected)
    let depth = length path
    elim count [
      | some n ↦ matches current target n
      | none ↦ any_count (2 ^ depth + 1 - fewest depth) (fewest depth) current target
    ]
