-- ===== src/Engine/Resume.antt =====
-- _revalidate_chunks, _reset_chunk, _checkpoint_sync and _checkpoint_interrupted.
use relia_dl.Prelude.{
  ℕ, zero, suc, ◌+◌, ◌-◌, min, Bool, false, Option, none, some, List, [], ◌∷◌, ◌++◌, map, ltb,
  if◌then◌else◌,
}
use relia_dl.Prelude.Int.{pos}
use relia_dl.Prelude.Results.{Result, ok, err, ◌>>=◌}
use relia_dl.Prelude.Text.{Text}
use relia_dl.Merkle.{Bytes}
use relia_dl.Models.{
  ChunkStatus, DownloadStatus, ChunkState, DownloadState, is_successful, is_abandoned,
}
use relia_dl.Writer.{Os, SparseFileWriter, read_at, sync, close}
use relia_dl.State.{Disk, Codec, Calls, save}
use relia_dl.Engine.Errors.{constant_time_compare}
use relia_dl.Engine.Body.{Settings, revalidate_read_size}

-- _reset_chunk
unfoldable pub reset_chunk : ChunkState → ChunkState
reset_chunk c = record c {
  retries = if is_abandoned c.status then 0 else c.retries;
  status = ChunkStatus.pending;
  hash_verified = false;
  computed_hash = none;
}

-- The chunks of a state, one after the other, with the first exception.
abbrev pub traverse : (ChunkState → Result ChunkState) → List ChunkState → Result (List ChunkState)
traverse f [] = ok []
traverse f (c ∷ cs) = let rest = traverse f cs in f c >>= λ d. rest >>= λ ds. ok (d ∷ ds)

-- IN_PROGRESS, DOWNLOADING and FAILED chunks wait again.
unfoldable pub demoted : ChunkStatus → ChunkStatus
demoted ChunkStatus.in_progress = ChunkStatus.pending
demoted ChunkStatus.downloading = ChunkStatus.pending
demoted ChunkStatus.failed = ChunkStatus.pending
demoted k = k

unfoldable pub demote : ChunkState → ChunkState
demote c = record c { status = demoted c.status }

module _ (os : Os) where
  -- The reads of _revalidate_chunks, over `range(start, past, _REVALIDATE_READ_SIZE)`.
  unfoldable pub range_reads : ℕ → ℕ → ℕ → SparseFileWriter os → Result Bytes
  range_reads zero offset past w = ok []
  range_reads (suc fuel) offset past w =
      let rest = range_reads fuel (offset + revalidate_read_size) past w in
      if ltb offset past
      then (read_at os (pos offset) (pos (min revalidate_read_size (past - offset))) w >>= λ b.
          rest >>= λ bs. ok (b ++ bs))
      else ok []

  -- The bytes of a chunk; each read goes on by a byte at least, so its length is fuel enough.
  unfoldable pub chunk_bytes : ChunkState → SparseFileWriter os → Result Bytes
  chunk_bytes c w = range_reads (c.end_byte + 1 - c.start_byte) c.start_byte (c.end_byte + 1) w

  -- A chunk that the state calls successful, by its recorded digest.
  abbrev pub revalidate_digest :
      Settings → SparseFileWriter os → ChunkState → Option Text → Result ChunkState
  revalidate_digest s w c none = ok (reset_chunk c)
  revalidate_digest s w c (some []) = ok (reset_chunk c)
  revalidate_digest s w c (some (x ∷ h)) = chunk_bytes c w >>= λ b.
      ok (if constant_time_compare (s.hexdigest b) (x ∷ h) then c else reset_chunk c)

  unfoldable pub revalidate_chunk : Settings → SparseFileWriter os → ChunkState → Result ChunkState
  revalidate_chunk s w c =
      if is_successful c.status then revalidate_digest s w c c.computed_hash else ok c

  -- _revalidate_chunks
  unfoldable pub revalidate_chunks :
      Settings → SparseFileWriter os → DownloadState → Result DownloadState
  revalidate_chunks s w d =
      traverse (revalidate_chunk s w) d.chunks >>= λ cs. ok (record d { chunks = cs })

  module _ (codec : Codec DownloadState) (backup : Bool) (calls : Calls) where
    -- _checkpoint_sync: an exception of the sync leaves the state file.
    unfoldable pub checkpoint_sync :
        DownloadState → SparseFileWriter os → Disk → Result (Unit {0}) × Disk
    checkpoint_sync d w disk = elim (sync os w) [
      | err e ↦ (err e, disk)
      | ok done ↦ let saved = save codec backup calls d disk in (saved.result, saved.after)
    ]

    -- What follows `writer.sync()` in _checkpoint_interrupted.
    abbrev pub after_sync :
        Result (Unit {0})
        → DownloadState
        → SparseFileWriter os
        → Disk
        → Result (Unit {0}) × DownloadState × SparseFileWriter os × Disk
    after_sync (err e) left w disk = (err e, left, w, disk)
    after_sync (ok done) left w disk =
        let saved = save codec backup calls left disk in
        (saved.result, left, close os w, saved.after)

    -- _checkpoint_interrupted, with the state, the writer and the disk that it leaves.
    unfoldable pub checkpoint_interrupted :
        DownloadStatus
        → DownloadState
        → SparseFileWriter os
        → Disk
        → Result (Unit {0}) × DownloadState × SparseFileWriter os × Disk
    checkpoint_interrupted status d w disk =
        after_sync (sync os w) (record d { chunks = map demote d.chunks; status = status }) w disk
