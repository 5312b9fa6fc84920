-- ===== src/Engine/Fetch.antt =====
-- _fetch_chunk: the checks before and after the body of a response.
use relia_dl.Prelude.{
  ℕ, ◌+◌, ◌-◌, max, Bool, false, not, Option, none, some, [], ◌∷◌, ◌==◌, if◌then◌else◌,
}
use relia_dl.Prelude.Results.{
  Result, ok, err, raise_if, network_error, precondition_failed, range_not_supported, http_error,
  chunk_hash_mismatch, ◌>>=◌, ◌>>◌,
}
use relia_dl.Prelude.Text.{Text}
use relia_dl.Models.{ChunkState, size}
use relia_dl.Stream.{SubBlockStreamValidator, finalize}
use relia_dl.Writer.{Os, SparseFileWriter}
use relia_dl.Engine.Errors.{http_error_of, constant_time_compare}
use relia_dl.Engine.Body.{
  Settings, Response, Exchange, Transfer, equals, is_range, build_validator, proceed,
  receive_blocks, finish_body, digest_chunk_from_disk,
}

-- The checks of a response's head.
unfoldable pub check_response : Settings → ChunkState → ℕ → Response → Result (Unit {0})
check_response s c range_start r = do
  raise_if (r.status == 200) (if s.if_range then precondition_failed else range_not_supported)
  raise_if (not (r.status == 206)) (http_error_of r.status)
  raise_if (not (is_range r.content_range range_start c.end_byte)) (http_error false)

abbrev pub finalized : Settings → Option SubBlockStreamValidator → Result (Unit {0})
finalized s none = ok tt
finalized s (some v) = finalize s.sha256 v >>= λ w. ok tt

-- `if chunk.expected_hash and not constant_time_compare(digest, chunk.expected_hash)`
abbrev pub is_other : Option Text → Text → Bool
is_other none digest = false
is_other (some []) digest = false
is_other (some (x ∷ h)) digest = not (constant_time_compare digest (x ∷ h))

-- `self._verified_prefix.get(chunk.index, 0)`
abbrev pub resume_of : Option ℕ → ℕ
resume_of none = 0
resume_of (some n) = n

module _ (os : Os) where
  -- What follows the body.
  unfoldable pub conclude : Settings → ℕ → ChunkState → Transfer os → Result Text
  conclude s resume_at c t = do
    raise_if (not (equals (size c) (t.offset - c.start_byte))) network_error
    finalized s t.validator
    digest ←
        if resume_at == 0 then ok (s.hexdigest t.hashed) else digest_chunk_from_disk os s c t.writer
    raise_if (is_other c.expected_hash digest) chunk_hash_mismatch
    ok digest

  unfoldable pub start_transfer : Settings → ℕ → ChunkState → SparseFileWriter os → Transfer os
  start_transfer s resume_at c w = record {
    writer = w;
    hashed = [];
    validator = build_validator s resume_at;
    buffer = [];
    buffered = 0;
    buffer_start = c.start_byte + resume_at;
    offset = c.start_byte + resume_at;
  }

  abbrev pub concluded :
      Settings
      → ℕ
      → ChunkState
      → Result (Unit {0}) × Transfer os
      → Result Text × SparseFileWriter os
  concluded s resume_at c (ok done, t) = (conclude s resume_at c t, t.writer)
  concluded s resume_at c (err e, t) = (err e, t.writer)

  -- The body of a response whose head was accepted.
  unfoldable pub receive_body :
      Settings → ChunkState → Response → Transfer os → Result (Unit {0}) × Transfer os
  receive_body s c r t =
      proceed os (receive_blocks os s (max 4096 s.write_buffer_bytes) c r.blocks t)
        (finish_body os r.broken)

  abbrev pub fetch_answer :
      Settings
      → ℕ
      → ChunkState
      → Response
      → SparseFileWriter os
      → Result (Unit {0})
      → Result Text × SparseFileWriter os
  fetch_answer s resume_at c r w (ok done) =
      concluded s resume_at c (receive_body s c r (start_transfer s resume_at c w))
  fetch_answer s resume_at c r w (err e) = (err e, w)

  -- _fetch_chunk, with the verified prefix of the chunk and what the request gives. The session's
  -- hash algorithm is one that StreamingHashVerifier supports.
  unfoldable pub fetch_chunk :
      Settings
      → Option ℕ
      → ChunkState
      → Exchange
      → SparseFileWriter os
      → Result Text × SparseFileWriter os
  fetch_chunk s prefix c Exchange.unreachable w = (err network_error, w)
  fetch_chunk s prefix c (Exchange.answered r) w =
      fetch_answer s (resume_of prefix) c r w
        (check_response s c (c.start_byte + resume_of prefix) r)
