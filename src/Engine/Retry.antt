-- ===== src/Engine/Retry.antt =====
-- _download_chunk_with_retries and _record_verified_prefix. What the mirror selection and the
-- requests give is an argument, an attempt for each round; delays, logs, progress and the
-- scheduler's records of throughput are left out. The dictionaries of the engine are here their
-- entries for the chunk.
use relia_dl.Prelude.{
  ℕ, zero, suc, ◌+◌, ◌*◌, ◌/◌, min, max, Bool, true, false, not, ◌||◌, Option, none, some, List, [],
  ◌∷◌, ◌++◌, leb, if◌then◌else◌,
}
use relia_dl.Prelude.Int.{ℤ, ◌+ℤ◌, pos_part}
use relia_dl.Prelude.Results.{
  Error, Result, ok, err, value_error, index_error, key_error, overflow_error, not_implemented,
  sub_block_corrupted,
}
use relia_dl.Prelude.Text.{Text}
use relia_dl.Models.{ChunkState, size, mark_in_progress, mark_complete, mark_failed, mark_abandoned}
use relia_dl.Writer.{Os, SparseFileWriter}
use relia_dl.Engine.Errors.{is_retryable}
use relia_dl.Engine.Body.{Settings, Exchange}
use relia_dl.Engine.Fetch.{fetch_chunk, resume_of}

-- A round: the mirror that _select_mirror gives, or what it raises, and the exchange of the
-- request.
pub record Attempt : Type 0 where
  pub selection : Result (Option Text)
  pub exchange : Exchange

-- Classes under ReliaDLError.
unfoldable pub is_reliadl : Error → Bool
is_reliadl value_error = false
is_reliadl index_error = false
is_reliadl key_error = false
is_reliadl overflow_error = false
is_reliadl not_implemented = false
is_reliadl _ = true

-- _record_verified_prefix: the new entry for the chunk.
unfoldable pub record_verified_prefix : ℕ → ChunkState → Error → Option ℕ → Option ℕ
record_verified_prefix block_size c (sub_block_corrupted block) prefix =
    let already = resume_of prefix in
    let good_blocks = already / block_size + block in
    let longer = min (good_blocks * block_size) (pos_part (size c)) in
    if leb longer already then none else some longer
record_verified_prefix block_size c _ prefix = none

-- `if selection is not None and selection.mirror_id`
abbrev pub add_mirror : Option Text → List Text → List Text
add_mirror none ms = ms
add_mirror (some []) ms = ms
add_mirror (some (x ∷ m)) ms = ms ++ (x ∷ m) ∷ []

-- How a round ends: the loop goes on, returns, or raises.
pub data Round : Type 0 where
  again : Round
  returned : Round
  raised : Error → Round

module _ (os : Os) where
  -- What the loop changes.
  pub record Task : Type 0 where
    pub chunk : ChunkState
    pub verified_prefix : Option ℕ
    pub failed_mirrors : List Text
    pub completed_bytes : ℤ
    pub writer : SparseFileWriter os

  module _ (s : Settings) (message : Error → Text) (limit : ℕ) where
    -- After a ReliaDLError.
    unfoldable pub give_up_or_wait : Error → Task → Round × Task
    give_up_or_wait e t =
        if not (is_retryable e) || leb limit (t.chunk.retries + 1)
        then (Round.raised e, record t { chunk = mark_abandoned (some (message e)) t.chunk })
        else (Round.again, record t { chunk = mark_failed (some (message e)) true t.chunk })

    -- What a request gives.
    unfoldable pub after_fetch :
        Option Text → Task → Result Text × SparseFileWriter os → Round × Task
    after_fetch mirror t (ok digest, w) = (
      Round.returned,
      record {
        chunk = mark_complete (some digest) t.chunk;
        verified_prefix = none;
        failed_mirrors = [];
        completed_bytes = t.completed_bytes +ℤ size t.chunk;
        writer = w;
      },
    )
    after_fetch mirror t (err e, w) =
        if is_reliadl e
        then give_up_or_wait e (record t {
          verified_prefix = record_verified_prefix s.sub_block_size t.chunk e t.verified_prefix;
          failed_mirrors = add_mirror mirror t.failed_mirrors;
          writer = w;
        })
        else (Round.raised e, record t { writer = w })

    -- A round with the mirror that was selected; the selection is outside the `try`.
    abbrev pub selected : Exchange → Task → Result (Option Text) → Round × Task
    selected x t (err e) = (Round.raised e, t)
    selected x t (ok mirror) =
        after_fetch mirror t (fetch_chunk os s t.verified_prefix t.chunk x t.writer)

    unfoldable pub attempt : Attempt → Task → Round × Task
    attempt a t = selected a.exchange (record t { chunk = mark_in_progress t.chunk }) a.selection

    abbrev pub continue : (Task → Round × Task) → Round × Task → Round × Task
    continue next (Round.again, t) = next t
    continue next (Round.returned, t) = (Round.returned, t)
    continue next (Round.raised e, t) = (Round.raised e, t)

    -- `while True`, on fuel; the rounds are numbered.
    unfoldable pub retry_loop : ℕ → ℕ → (ℕ → Attempt) → Task → Round × Task
    retry_loop zero round script t = (Round.again, t)
    retry_loop (suc n) round script t =
        continue (retry_loop n (suc round) script) (attempt (script round) t)

  -- _download_chunk_with_retries; as many rounds as attempts are allowed are enough.
  unfoldable pub download_chunk_with_retries :
      Settings → (Error → Text) → ℕ → (ℕ → Attempt) → Task → Round × Task
  download_chunk_with_retries s message max_retries script t =
      let limit = max 1 max_retries in retry_loop s message limit limit 0 script t
