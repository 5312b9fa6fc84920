-- ===== src/Engine/Retried.antt =====
-- The retries of a chunk end: with its bytes in the file and their digest, or with an exception.
use relia_dl.Prelude.{
  Bool-cases, ℕ, ◌+◌, ◌≤◌, ◌<◌, ◌≡◌, ◌⊎◌, inl, inr, refl, ◌∙◌, Bool, true, false, not, ◌||◌, Option,
  some, leb, arith, leb→le,
}
use relia_dl.Prelude.Results.{Error, Result, ok, err, Result-cases}
use relia_dl.Prelude.Text.{Text}
use relia_dl.Models.{
  ChunkStatus, ChunkState, mark_in_progress, mark_complete, mark_failed, mark_abandoned,
}
use relia_dl.Writer.{Os, Laws, SparseFileWriter}
use relia_dl.Writer.Calls.{HasRoom}
use relia_dl.Engine.Errors.{is_retryable}
use relia_dl.Engine.Body.{Settings, Exchange}
use relia_dl.Engine.Fetch.{fetch_chunk, resume_of}
use relia_dl.Engine.Retry.{
  Attempt, Round, Task, is_reliadl, record_verified_prefix, add_mirror, give_up_or_wait,
  after_fetch, attempt,
}
use relia_dl.Engine.Causes.{
  IsBuiltin, IsTransient, IsTransient-is_retryable, is_retryable-IsTransient,
  is_reliadl-not_IsBuiltin, is_reliadl-IsBuiltin,
}
use relia_dl.Engine.Prefix.{IsPrefix, record_verified_prefix-IsPrefix}
use relia_dl.Engine.Writes.{Within, Within-refl, Within-trans}
use relia_dl.Engine.Fetched.{Fetched, Fetched-Within, fetch_chunk-Fetched}

-- The fields of a chunk that no attempt changes.
pub record SameRange (c d : ChunkState) : Type 0 where
  pub range_index : d.index ≡ c.index
  pub range_start : d.start_byte ≡ c.start_byte
  pub range_end : d.end_byte ≡ c.end_byte
  pub range_expected : d.expected_hash ≡ c.expected_hash

SameRange-refl : (c : ChunkState) → SameRange c c
SameRange-refl c = record {
  range_index = refl;
  range_start = refl;
  range_end = refl;
  range_expected = refl;
}

pub SameRange-trans : (a b c : ChunkState) → SameRange a b → SameRange b c → SameRange a c
SameRange-trans a b c h k = record {
  range_index = k.range_index ∙ h.range_index;
  range_start = k.range_start ∙ h.range_start;
  range_end = k.range_end ∙ h.range_end;
  range_expected = k.range_expected ∙ h.range_expected;
}

pub marked_range : (c : ChunkState) → SameRange c (mark_in_progress c)
unfolding mark_in_progress
marked_range c = record {
  range_index = refl;
  range_start = refl;
  range_end = refl;
  range_expected = refl;
}

module _ (os : Os) (s : Settings) where
  -- A request for the range of a chunk that failed with a transient exception.
  pub record Failure (first : ChunkState) (x : Exchange) : Type 0 where
    pub prefix_then : Option ℕ
    pub chunk_then : ChunkState
    pub writer_then : SparseFileWriter os
    pub cause : Error
    pub range_then : SameRange first chunk_then
    pub raises : (fetch_chunk os s prefix_then chunk_then x writer_then).0 ≡ err cause
    pub transient : IsTransient cause

  pub Failure-from : (a b : ChunkState) (x : Exchange) → SameRange a b → Failure b x → Failure a x
  Failure-from a b x same f = record {
    prefix_then = f.prefix_then;
    chunk_then = f.chunk_then;
    writer_then = f.writer_then;
    cause = f.cause;
    range_then = SameRange-trans a b f.chunk_then same f.range_then;
    raises = f.raises;
    transient = f.transient;
  }

-- `Selected` are the exceptions that the mirror selection raises.
module _ (os : Os) (laws : Laws os) (s : Settings) (message : Error → Text)
    (Selected : Error → Type 0) (limit : ℕ) where
  -- How the loop ends for a chunk. Complete: some request gave the digest. Abandoned: the last
  -- exception is one of the program's own, and not a transient one or the attempts are used up. In progress: the mirror
  -- selection raised, or a builtin exception came.
  pub data Ending (first : ChunkState) (r : Round × Task os) : Type 0 where
    complete :
        (c : ChunkState) (p : Option ℕ) (x : Exchange) (v : SparseFileWriter os) (digest : Text)
        → r.0 ≡ Round.returned
        → SameRange first c
        → r.1.chunk ≡ mark_complete (some digest) c
        → Fetched os laws s (resume_of p) c x v (ok digest, r.1.writer)
        → Ending first r
    abandoned :
        (e : Error)
        → r.0 ≡ Round.raised e
        → r.1.chunk.status ≡ ChunkStatus.abandoned
        → ¬ IsBuiltin e
        → (¬ IsTransient e) ⊎ (limit ≤ r.1.chunk.retries + 1)
        → Ending first r
    escaped :
        (e : Error)
        → r.0 ≡ Round.raised e
        → r.1.chunk.status ≡ ChunkStatus.in_progress
        → Selected e ⊎ IsBuiltin e
        → Ending first r

  -- A round that is followed by another one.
  pub record Goes (x : Exchange) (first : ChunkState) (r : Round × Task os) : Type 0 where
    pub goes : r.0 ≡ Round.again
    pub one_more : r.1.chunk.retries ≡ first.retries + 1
    pub allowed : r.1.chunk.retries < limit
    pub same_range : SameRange first r.1.chunk
    pub prefix : IsPrefix r.1.chunk r.1.verified_prefix
    pub failure : Failure os s first x

  -- A round: another one follows, or the loop ends without a failure counted; only bytes of the
  -- chunk have changed.
  abbrev pub Tried : Exchange → Task os → Round × Task os → Type 0
  Tried x t r =
      (Goes x t.chunk r ⊎ (Ending t.chunk r × (r.1.chunk.retries ≡ t.chunk.retries)))
      × Within os laws t.chunk.start_byte (t.chunk.end_byte + 1) t.writer r.1.writer

  -- A test of the two conditions for giving up.
  why :
      (e : Error) (b : Bool) (m n : ℕ)
      → is_retryable e ≡ b
      → (not b || leb m n) ≡ true
      → (¬ IsTransient e) ⊎ (m ≤ n)
  why e false m n same h = inl (IsTransient-is_retryable e same)
  why e true m n same h = inr (leb→le m n h)

  why_less : (m n : ℕ) → leb m n ≡ false → n < m
  why_less m n h = ground arith

  why_not :
      (e : Error) (b : Bool) (m n : ℕ)
      → is_retryable e ≡ b
      → (not b || leb m n) ≡ false
      → (n < m) × IsTransient e
  why_not e false m n same h = absurd (cc)
  why_not e true m n same h = (why_less m n h, is_retryable-IsTransient e same)

  give_up-Tried :
      (x : Exchange) (e : Error) (t : Task os)
      → IsPrefix t.chunk t.verified_prefix
      → ¬ IsBuiltin e
      → (IsTransient e → Failure os s t.chunk x)
      → Tried x t (give_up_or_wait os s message limit e t)
  unfolding give_up_or_wait mark_abandoned mark_failed IsPrefix
  give_up-Tried x e t inside own failed =
      let frame = Within-refl os laws t.chunk.start_byte (t.chunk.end_byte + 1) t.writer in
      elim (Bool-cases (not (is_retryable e) || leb limit (t.chunk.retries + 1))) [
        | inl over ↦
            let reason = why e (is_retryable e) limit (t.chunk.retries + 1) refl over in
            rw over (inr (Ending.abandoned e refl refl own reason, refl), frame)
        | inr more ↦
            let (left, transient) =
              why_not e (is_retryable e) limit (t.chunk.retries + 1) refl more in
            rw more (
              inl (record {
                goes = refl;
                one_more = refl;
                allowed = left;
                same_range = record {
                  range_index = refl;
                  range_start = refl;
                  range_end = refl;
                  range_expected = refl;
                };
                prefix = inside;
                failure = failed transient;
              }),
              frame,
            )
      ]

  after_fetch-Tried :
      (mirror : Option Text) (t : Task os) (x : Exchange) (r : Result Text × SparseFileWriter os)
      → IsPrefix t.chunk t.verified_prefix
      → t.chunk.status ≡ ChunkStatus.in_progress
      → Fetched os laws s (resume_of t.verified_prefix) t.chunk x t.writer r
      → ((e : Error) → r.0 ≡ err e → IsTransient e → Failure os s t.chunk x)
      → Tried x t (after_fetch os s message limit mirror t r)
  unfolding after_fetch mark_complete
  after_fetch-Tried mirror t x (ok digest, w) inside active got failed =
      let frame =
        Fetched-Within os laws s (resume_of t.verified_prefix) t.chunk x t.writer (ok digest, w)
          got in
      (
        inr (
          Ending.complete t.chunk t.verified_prefix x t.writer digest refl (SameRange-refl t.chunk)
              refl got,
          refl,
        ),
        frame,
      )
  after_fetch-Tried mirror t x (err e, w) inside active got failed =
      let frame =
        Fetched-Within os laws s (resume_of t.verified_prefix) t.chunk x t.writer (err e, w) got in
      let u = record t {
        verified_prefix = record_verified_prefix s.sub_block_size t.chunk e t.verified_prefix;
        failed_mirrors = add_mirror mirror t.failed_mirrors;
        writer = w;
      } in
      elim (Bool-cases (is_reliadl e)) [
        | inr other ↦
            rw other
              (inr (Ending.escaped e refl active (inr (is_reliadl-IsBuiltin e other)), refl), frame)
        | inl known ↦
            let (end, still) =
              give_up-Tried x e u
                (record_verified_prefix-IsPrefix s.sub_block_size t.chunk e t.verified_prefix
                  inside)
                (is_reliadl-not_IsBuiltin e known) (failed e refl) in
            rw known (
              end,
              Within-trans os laws t.chunk.start_byte (t.chunk.end_byte + 1) t.writer w
                  (give_up_or_wait os s message limit e u).1.writer frame still,
            )
      ]

  pub Ending-from :
      (a b : ChunkState) (r : Round × Task os) → SameRange a b → Ending b r → Ending a r
  Ending-from a b r same (Ending.complete c p x v digest done range marked got) =
      Ending.complete c p x v digest done (SameRange-trans a b c same range) marked got
  Ending-from a b r same (Ending.abandoned e bad status own reason) =
      Ending.abandoned e bad status own reason
  Ending-from a b r same (Ending.escaped e bad status cause) = Ending.escaped e bad status cause

  -- The chunk is marked as in progress first.
  started-Tried :
      (x : Exchange) (t : Task os) (r : Round × Task os)
      → Tried x (record t { chunk = mark_in_progress t.chunk }) r
      → Tried x t r
  unfolding mark_in_progress
  started-Tried x t r (inl g, frame) = (
    inl (record {
      goes = g.goes;
      one_more = g.one_more;
      allowed = g.allowed;
      same_range =
          SameRange-trans t.chunk (mark_in_progress t.chunk) r.1.chunk (marked_range t.chunk)
            g.same_range;
      prefix = g.prefix;
      failure =
          Failure-from os s t.chunk (mark_in_progress t.chunk) x (marked_range t.chunk) g.failure;
    }),
    frame,
  )
  started-Tried x t r (inr (end, same), frame) = (
    inr (Ending-from t.chunk (mark_in_progress t.chunk) r (marked_range t.chunk) end, same),
    frame,
  )

  pub attempt-Tried :
      (a : Attempt) (t : Task os)
      → ((e : Error) → a.selection ≡ err e → Selected e)
      → IsPrefix t.chunk t.verified_prefix
      → HasRoom os t.writer
      → Tried a.exchange t (attempt os s message limit a t)
  unfolding attempt mark_in_progress IsPrefix
  attempt-Tried a t chosen inside room =
      let u = record t { chunk = mark_in_progress t.chunk } in
      started-Tried a.exchange t (attempt os s message limit a t) (elim (Result-cases a.selection) [
        | inr (e, bad) ↦ rw bad (
          inr (Ending.escaped e refl refl (inl (chosen e bad)), refl),
          Within-refl os laws t.chunk.start_byte (t.chunk.end_byte + 1) t.writer,
        )
        | inl (mirror, good) ↦
            let got =
              fetch_chunk-Fetched os laws s t.verified_prefix u.chunk a.exchange t.writer room
                inside in
            rw good (
              after_fetch-Tried mirror u a.exchange
                (fetch_chunk os s t.verified_prefix u.chunk a.exchange t.writer) inside refl got
                (λ e bad transient. record {
                  prefix_then = t.verified_prefix;
                  chunk_then = u.chunk;
                  writer_then = t.writer;
                  cause = e;
                  range_then = SameRange-refl u.chunk;
                  raises = bad;
                  transient = transient;
                }))
      ])
