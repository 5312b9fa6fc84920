-- ===== src/State/Inventory.antt =====
-- StateManager.reconcile_inventory. The part files are given by the size of each, and the texts
-- that hold a path or a size are parameters.
use relia_dl.Prelude.{ℕ, Bool, true, false, Option, none, some, ◌==◌, map}
use relia_dl.Prelude.Int.{ℤ, pos, negsuc}
use relia_dl.Prelude.Text.{Text, codes}
use relia_dl.Models.{ChunkStatus, ChunkState, DownloadState, size}

-- The files of the chunk directory: the size of `chunk_<index>.part`, if it is a file, with its
-- path and the message on a size that is not the expected one.
pub record PartFiles : Type 0 where
  pub part_size : ℕ → Option ℕ
  pub part_path : ℕ → Text
  pub mismatch : ℤ → ℕ → Text

-- `stat().st_size == expected_size`
unfoldable pub is_size : ℤ → ℕ → Bool
is_size (pos n) actual = actual == n
is_size (negsuc n) actual = false

-- A chunk that the state calls complete.
unfoldable pub check_complete : PartFiles → ChunkState → Option ℕ → ChunkState
check_complete files c none = record c {
  status = ChunkStatus.failed;
  hash_verified = false;
  error = some (codes "Chunk file missing on disk");
}
check_complete files c (some actual) = elim (is_size (size c) actual) [
  | true ↦ record c { file_path = some (files.part_path c.index) }
  | false ↦ record c {
    status = ChunkStatus.failed;
    hash_verified = false;
    error = some (files.mismatch (size c) actual);
  }
]

-- A chunk that was downloaded when the process ended.
unfoldable pub check_partial : PartFiles → ChunkState → Option ℕ → ChunkState
check_partial files c none = record c { status = ChunkStatus.pending; file_path = none }
check_partial files c (some actual) = elim (is_size (size c) actual) [
  | true ↦ record c { status = ChunkStatus.verifying; file_path = some (files.part_path c.index) }
  | false ↦ record c { status = ChunkStatus.pending; file_path = none }
]

abbrev pub reconcile_by : PartFiles → ChunkState → ChunkStatus → ChunkState
reconcile_by files c ChunkStatus.complete = check_complete files c (files.part_size c.index)
reconcile_by files c ChunkStatus.completed = check_complete files c (files.part_size c.index)
reconcile_by files c ChunkStatus.in_progress = check_partial files c (files.part_size c.index)
reconcile_by files c _ = c

unfoldable pub reconcile_chunk : PartFiles → ChunkState → ChunkState
reconcile_chunk files c = reconcile_by files c c.status

unfoldable pub reconcile_inventory : PartFiles → DownloadState → DownloadState
reconcile_inventory files s = record s { chunks = map (reconcile_chunk files) s.chunks }
