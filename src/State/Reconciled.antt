-- ===== src/State/Reconciled.antt =====
-- What reconcile_inventory makes of each chunk.
use relia_dl.Prelude.{
  ℕ, ◌≡◌, ◌≢◌, inl, inr, refl, sym, ap, ◌∙◌, Bool, true, false, Option, none, some, List, [], ◌∷◌,
  map, Bool-cases,
}
use relia_dl.Prelude.Text.{Text, codes}
use relia_dl.Models.{ChunkStatus, ChunkState, DownloadState, size, is_successful}
use relia_dl.State.Inventory.{
  PartFiles, is_size, check_complete, check_partial, reconcile_by, reconcile_chunk,
  reconcile_inventory,
}

-- The part file of a chunk is there and has the size of the chunk.
abbrev pub IsWhole : PartFiles → ChunkState → Type 0
IsWhole files c = (n : ℕ) × (files.part_size c.index ≡ some n) × (is_size (size c) n ≡ true)

-- The fields that no branch changes.
pub record SameChunk (c d : ChunkState) : Type 0 where
  pub same_index : d.index ≡ c.index
  pub same_start : d.start_byte ≡ c.start_byte
  pub same_end : d.end_byte ≡ c.end_byte
  pub same_retries : d.retries ≡ c.retries
  pub same_expected : d.expected_hash ≡ c.expected_hash
  pub same_computed : d.computed_hash ≡ c.computed_hash

-- What becomes of a chunk, by its status and its file.
pub data Reconciled (files : PartFiles) (c d : ChunkState) : Type 0 where
  kept :
      is_successful c.status ≡ true
      → IsWhole files c
      → d ≡ record c { file_path = some (files.part_path c.index) }
      → Reconciled files c d
  lost :
      is_successful c.status ≡ true
      → ¬ IsWhole files c
      → SameChunk c d
      → d.status ≡ ChunkStatus.failed
      → d.hash_verified ≡ false
      → Reconciled files c d
  found :
      c.status ≡ ChunkStatus.in_progress
      → IsWhole files c
      → SameChunk c d
      → d.status ≡ ChunkStatus.verifying
      → Reconciled files c d
  restarted :
      c.status ≡ ChunkStatus.in_progress
      → ¬ IsWhole files c
      → SameChunk c d
      → d.status ≡ ChunkStatus.pending
      → Reconciled files c d
  untouched :
      is_successful c.status ≡ false
      → c.status ≢ ChunkStatus.in_progress
      → d ≡ c
      → Reconciled files c d

same_as :
    (c : ChunkState) (status : ChunkStatus) (verified : Bool) (path error : Option Text)
    → SameChunk c
        (record c { status = status; hash_verified = verified; file_path = path; error = error })
same_as c status verified path error = record {
  same_index = refl;
  same_start = refl;
  same_end = refl;
  same_retries = refl;
  same_expected = refl;
  same_computed = refl;
}

module _ (files : PartFiles) (c : ChunkState) where
  part-gone : files.part_size c.index ≡ none → ¬ IsWhole files c
  part-gone gone (n, there, fits) = absurd (cc)

  part-cut :
      (n : ℕ) → files.part_size c.index ≡ some n → is_size (size c) n ≡ false → ¬ IsWhole files c
  part-cut n there cut (m, again, fits) =
      let same : n ≡ m = cc in
      let both : false ≡ true = (sym cut ∙ ap (is_size (size c)) same ∙ fits) in absurd (cc)

  complete-Reconciled :
      (o : Option ℕ)
      → files.part_size c.index ≡ o
      → is_successful c.status ≡ true
      → Reconciled files c (check_complete files c o)
  unfolding check_complete
  complete-Reconciled none gone good =
      Reconciled.lost good (part-gone gone)
        (same_as c ChunkStatus.failed false c.file_path (some (codes "Chunk file missing on disk")))
        refl refl
  complete-Reconciled (some n) there good = elim (Bool-cases (is_size (size c) n)) [
    | inl fits ↦ rw (check_complete, fits) (Reconciled.kept good (n, there, fits) refl)
    | inr cut ↦
        rw (check_complete, cut)
          (Reconciled.lost good (part-cut n there cut)
            (same_as c ChunkStatus.failed false c.file_path (some (files.mismatch (size c) n))) refl
            refl)
  ]

  partial-Reconciled :
      (o : Option ℕ)
      → files.part_size c.index ≡ o
      → c.status ≡ ChunkStatus.in_progress
      → Reconciled files c (check_partial files c o)
  unfolding check_partial
  partial-Reconciled none gone active =
      Reconciled.restarted active (part-gone gone)
        (same_as c ChunkStatus.pending c.hash_verified none c.error) refl
  partial-Reconciled (some n) there active = elim (Bool-cases (is_size (size c) n)) [
    | inl fits ↦
        rw (check_partial, fits)
          (Reconciled.found active (n, there, fits)
            (same_as c ChunkStatus.verifying c.hash_verified (some (files.part_path c.index))
              c.error)
            refl)
    | inr cut ↦
        rw (check_partial, cut)
          (Reconciled.restarted active (part-cut n there cut)
            (same_as c ChunkStatus.pending c.hash_verified none c.error) refl)
  ]

  pub reconcile_by-Reconciled :
      (k : ChunkStatus) → c.status ≡ k → Reconciled files c (reconcile_by files c k)
  unfolding is_successful
  reconcile_by-Reconciled ChunkStatus.complete e =
      complete-Reconciled (files.part_size c.index) refl (ap is_successful e)
  reconcile_by-Reconciled ChunkStatus.completed e =
      complete-Reconciled (files.part_size c.index) refl (ap is_successful e)
  reconcile_by-Reconciled ChunkStatus.in_progress e =
      partial-Reconciled (files.part_size c.index) refl e
  reconcile_by-Reconciled ChunkStatus.pending e =
      Reconciled.untouched (ap is_successful e) (λ f. absurd (cc)) refl
  reconcile_by-Reconciled ChunkStatus.downloading e =
      Reconciled.untouched (ap is_successful e) (λ f. absurd (cc)) refl
  reconcile_by-Reconciled ChunkStatus.verifying e =
      Reconciled.untouched (ap is_successful e) (λ f. absurd (cc)) refl
  reconcile_by-Reconciled ChunkStatus.failed e =
      Reconciled.untouched (ap is_successful e) (λ f. absurd (cc)) refl
  reconcile_by-Reconciled ChunkStatus.abandoned e =
      Reconciled.untouched (ap is_successful e) (λ f. absurd (cc)) refl

-- Chunk by chunk.
abbrev pub AllReconciled : PartFiles → List ChunkState → List ChunkState → Type 0
AllReconciled files [] [] = Unit
AllReconciled files (c ∷ cs) (d ∷ ds) = Reconciled files c d × AllReconciled files cs ds
AllReconciled files _ _ = ⊥

map-Reconciled :
    (files : PartFiles) (cs : List ChunkState)
    → AllReconciled files cs (map (reconcile_chunk files) cs)
unfolding reconcile_chunk
map-Reconciled files [] = tt
map-Reconciled files (c ∷ cs) =
    (reconcile_by-Reconciled files c c.status refl, map-Reconciled files cs)

-- After a reconciliation a chunk is successful exactly when the state called it so and its part
-- file is there with its size: one whose file is gone or has another size is failed and no longer
-- verified, one in progress waits for verification when its file is whole and starts again when
-- not, the others are as they were, and no chunk has another index, range, digest or count of
-- retries.
pub reconcile-AllReconciled :
    (files : PartFiles) (s : DownloadState)
    → AllReconciled files s.chunks (reconcile_inventory files s).chunks
unfolding reconcile_inventory
reconcile-AllReconciled files s = map-Reconciled files s.chunks
