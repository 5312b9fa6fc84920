-- ===== src/Models/Status.antt =====
-- reliadl/models.py: ChunkStatus and DownloadStatus.
use relia_dl.Prelude.{Bool, true, false}

pub data ChunkStatus : Type 0 where
  pending downloading in_progress verifying complete completed failed abandoned : ChunkStatus

pub data DownloadStatus : Type 0 where
  pending in_progress downloading assembling verifying complete completed failed cancelled :
      DownloadStatus

-- ChunkStatus.is_terminal
unfoldable pub is_terminal : ChunkStatus → Bool
is_terminal ChunkStatus.complete = true
is_terminal ChunkStatus.completed = true
is_terminal ChunkStatus.abandoned = true
is_terminal _ = false

-- ChunkStatus.is_successful
unfoldable pub is_successful : ChunkStatus → Bool
is_successful ChunkStatus.complete = true
is_successful ChunkStatus.completed = true
is_successful _ = false

unfoldable pub is_pending : ChunkStatus → Bool
is_pending ChunkStatus.pending = true
is_pending _ = false

unfoldable pub is_failed : ChunkStatus → Bool
is_failed ChunkStatus.failed = true
is_failed _ = false

unfoldable pub is_abandoned : ChunkStatus → Bool
is_abandoned ChunkStatus.abandoned = true
is_abandoned _ = false

-- DownloadStatus.is_terminal
unfoldable pub session_terminal : DownloadStatus → Bool
session_terminal DownloadStatus.complete = true
session_terminal DownloadStatus.completed = true
session_terminal DownloadStatus.failed = true
session_terminal DownloadStatus.cancelled = true
session_terminal _ = false
