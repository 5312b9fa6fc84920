-- ===== src/Models/Session.antt =====
-- reliadl/models.py: DownloadStatistics and DownloadState. The three rates of the statistics, the
-- timestamps and the serialisation are left out.
use relia_dl.Prelude.{
  ℕ, ◌-◌, Bool, Option, none, some, List, [], ◌∷◌, length, ltb, leb, ◌&&◌, if◌then◌else◌,
}
use relia_dl.Prelude.Text.{Text}
use relia_dl.Models.Status.{
  ChunkStatus, DownloadStatus, is_successful, is_pending, is_failed, is_abandoned, session_terminal,
}
use relia_dl.Models.Chunk.{ChunkState}

pub record DownloadStatistics : Type 0 where
  pub bytes_completed : ℕ
  pub bytes_total : ℕ
  pub active_workers : ℕ

unfoldable pub is_complete : DownloadStatistics → Bool
is_complete s = ltb 0 s.bytes_total && leb s.bytes_total s.bytes_completed

-- `max(0, total - completed)` on integers.
unfoldable pub bytes_remaining : DownloadStatistics → ℕ
bytes_remaining s = s.bytes_total - s.bytes_completed

pub record DownloadState : Type 0 where
  pub download_id : Text
  pub url : Text
  pub target_path : Text
  pub file_size : ℕ
  pub chunk_size : ℕ
  pub hash_algorithm : Text
  pub expected_file_hash : Option Text
  pub etag : Option Text
  pub output_path : Option Text
  pub status : DownloadStatus
  pub chunks : List ChunkState
  pub statistics : Option DownloadStatistics

-- DownloadState.__post_init__
unfoldable pub with_output_path : DownloadState → DownloadState
with_output_path s = record s {
  output_path = elim s.output_path [ none ↦ some s.target_path | some p ↦ some p ];
}

unfoldable pub total_chunks : DownloadState → ℕ
total_chunks s = length s.chunks

-- The comprehension `[c for c in chunks if test(c.status)]`.
unfoldable pub select : (ChunkStatus → Bool) → List ChunkState → List ChunkState
select test [] = []
select test (c ∷ cs) = let rest = select test cs in if test c.status then c ∷ rest else rest

unfoldable pub completed_chunks : DownloadState → List ChunkState
completed_chunks s = select is_successful s.chunks

unfoldable pub pending_chunks : DownloadState → List ChunkState
pending_chunks s = select is_pending s.chunks

unfoldable pub failed_chunks : DownloadState → List ChunkState
failed_chunks s = select is_failed s.chunks

unfoldable pub abandoned_chunks : DownloadState → List ChunkState
abandoned_chunks s = select is_abandoned s.chunks

unfoldable pub is_finished : DownloadState → Bool
is_finished s = session_terminal s.status
