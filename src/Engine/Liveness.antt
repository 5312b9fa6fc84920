-- ===== src/Engine/Liveness.antt =====
-- A server that comes back while attempts are left gets the chunk delivered.
use mathlib.Core.Path.{subst}
use relia_dl.Prelude.{
  ℕ, zero, suc, ◌+◌, ◌≤◌, ◌<◌, ◌≡◌, refl, ap, ◌∙◌, true, max, Option, none, some, arith,
  lt→leb_false,
}
use relia_dl.Prelude.Results.{Error, Result, ok, err, network_error}
use relia_dl.Prelude.Text.{Text}
use relia_dl.Models.{ChunkStatus, ChunkState, mark_in_progress, mark_complete, mark_failed}
use relia_dl.Writer.{Os, SparseFileWriter}
use relia_dl.Engine.Errors.{is_retryable}
use relia_dl.Engine.Body.{Settings, Exchange}
use relia_dl.Engine.Fetch.{fetch_chunk}
use relia_dl.Engine.Retry.{
  Attempt, Round, Task, is_reliadl, record_verified_prefix, add_mirror, give_up_or_wait,
  after_fetch, attempt, continue, retry_loop, download_chunk_with_retries,
}
use relia_dl.Engine.Retried.{SameRange, marked_range}

-- A round in which a mirror is selected and the transport fails.
pub record IsOutage (a : Attempt) : Type 0 where
  pub mirror : Option Text
  pub chosen : a.selection ≡ ok mirror
  pub lost : a.exchange ≡ Exchange.unreachable

module _ (os : Os) (s : Settings) (message : Error → Text) where
  -- A round that answers every request for the range of a chunk with a digest.
  pub record IsAnswer (c : ChunkState) (w : SparseFileWriter os) (a : Attempt) : Type 0 where
    pub mirror : Option Text
    pub chosen : a.selection ≡ ok mirror
    pub answers :
        (d : ChunkState)
        → SameRange c d
        → (digest : Text) × ((fetch_chunk os s none d a.exchange w).0 ≡ ok digest)

  -- A task after a transport failure.
  abbrev failed_once : Option Text → Task os → Task os
  failed_once mirror t = record t {
    chunk = mark_failed (some (message network_error)) true (mark_in_progress t.chunk);
    verified_prefix = none;
    failed_mirrors = add_mirror mirror t.failed_mirrors;
  }

  outage-again :
      (limit : ℕ) (a : Attempt) (t : Task os)
      → (o : IsOutage a) → t.chunk.retries + 1 < limit
      → attempt os s message limit a t ≡ (Round.again, failed_once o.mirror t)
  unfolding attempt after_fetch give_up_or_wait fetch_chunk is_reliadl is_retryable
      record_verified_prefix mark_in_progress
  outage-again limit a t o left =
      rw (o.chosen, o.lost, lt→leb_false limit (t.chunk.retries + 1) left) refl

  after_fetch-ok :
      (limit : ℕ) (mirror : Option Text) (t : Task os) (r : Result Text × SparseFileWriter os)
      (digest : Text)
      → r.0 ≡ ok digest
      → let x = after_fetch os s message limit mirror t r in
        (x.0 ≡ Round.returned) × (x.1.chunk ≡ mark_complete (some digest) t.chunk)
  unfolding after_fetch
  after_fetch-ok limit mirror t (ok d, w) digest e =
      let same : d ≡ digest = cc in (refl, ap (λ h. mark_complete (some h) t.chunk) same)
  after_fetch-ok limit mirror t (err f, w) digest e = absurd (cc)

  -- The loop has ended with the chunk complete.
  pub record IsDelivered (failures : ℕ) (t : Task os) (r : Round × Task os) : Type 0 where
    pub returned : r.0 ≡ Round.returned
    pub complete : r.1.chunk.status ≡ ChunkStatus.complete
    pub counted : r.1.chunk.retries ≡ t.chunk.retries + failures

  answered-round :
      (limit : ℕ) (a : Attempt) (t : Task os)
      → t.verified_prefix ≡ none
      → IsAnswer t.chunk t.writer a
      → IsDelivered 0 t (attempt os s message limit a t)
  unfolding attempt mark_in_progress mark_complete
  answered-round limit a t fresh h =
      let c = mark_in_progress t.chunk in
      let (digest, good) = h.answers c (marked_range t.chunk) in
      let u = record t { chunk = c } in
      let call = fetch_chunk os s t.verified_prefix c a.exchange t.writer in
      let (done, marked) =
        after_fetch-ok limit h.mirror u call digest
          (ap (λ p. (fetch_chunk os s p c a.exchange t.writer).0) fresh ∙ good) in
      rw h.chosen (record {
        returned = done;
        complete = ap (λ d. d.status) marked;
        counted = omega (arith, ap (λ (d : ChunkState). d.retries) marked);
      })

  stopped :
      (n : ℕ) (t : Task os) (x : Round × Task os) (limit : ℕ) (next : Task os → Round × Task os)
      → IsDelivered n t x
      → IsDelivered n t (continue os s message limit next x)
  stopped n t (Round.again, u) limit next h = let bad = h.returned in absurd (cc)
  stopped n t (Round.returned, u) limit next h = h
  stopped n t (Round.raised e, u) limit next h = let bad = h.returned in absurd (cc)

  -- One more failure before.
  later-IsDelivered :
      (failures : ℕ) (mirror : Option Text) (t : Task os) (r : Round × Task os)
      → IsDelivered failures (failed_once mirror t) r
      → IsDelivered (suc failures) t r
  unfolding mark_failed mark_in_progress
  later-IsDelivered failures mirror t r h = record {
    returned = h.returned;
    complete = h.complete;
    counted = omega (arith, h.counted);
  }

  failed_left :
      (limit failures : ℕ) (t : Task os) (mirror : Option Text)
      → t.chunk.retries + suc failures < limit
      → (failed_once mirror t).chunk.retries + failures < limit
  unfolding mark_failed mark_in_progress
  failed_left limit failures t mirror h = omega arith

  -- What answers for a chunk answers for it after a failure.
  moved :
      (t : Task os) (mirror : Option Text) (a : Attempt)
      → IsAnswer t.chunk t.writer a
      → IsAnswer (failed_once mirror t).chunk t.writer a
  unfolding mark_failed mark_in_progress
  moved t mirror a h = record {
    mirror = h.mirror;
    chosen = h.chosen;
    answers = λ d same. h.answers d (record {
      range_index = same.range_index;
      range_start = same.range_start;
      range_end = same.range_end;
      range_expected = same.range_expected;
    });
  }

  loop-IsDelivered :
      (limit failures n round : ℕ) (script : ℕ → Attempt) (t : Task os)
      → failures < n
      → t.chunk.retries + failures < limit
      → t.verified_prefix ≡ none
      → ((i : ℕ) → round ≤ i → i < round + failures → IsOutage (script i))
      → ((i : ℕ) → i ≡ round + failures → IsAnswer t.chunk t.writer (script i))
      → IsDelivered failures t (retry_loop os s message limit n round script t)
  unfolding retry_loop
  loop-IsDelivered limit failures zero round script t h left fresh outages answer =
      absurd (omega arith)
  loop-IsDelivered limit zero (suc n) round script t h left fresh outages answer =
      stopped 0 t (attempt os s message limit (script round) t) limit
        (retry_loop os s message limit n (suc round) script)
        (answered-round limit (script round) t fresh (answer round (omega arith)))
  loop-IsDelivered limit (suc failures) (suc n) round script t h left fresh outages answer =
      let o = outages round (omega arith) (omega arith) in
      let u = failed_once o.mirror t in
      rw (outage-again limit (script round) t o (omega arith)) (
        later-IsDelivered failures o.mirror t (retry_loop os s message limit n (suc round) script u)
          (loop-IsDelivered limit failures n (suc round) script u (omega arith)
            (failed_left limit failures t o.mirror left) refl
            (λ i a b. outages i (omega arith) (omega arith))
            (λ i e. moved t o.mirror (script i) (answer i (omega arith)))))

  -- When the transport fails for some rounds, fewer than the attempts that are left, and the server
  -- then answers a request for the chunk from its first byte with a digest, the download of the
  -- chunk returns with the chunk complete and each failure counted. The chunk has no verified
  -- prefix at the start.
  pub download-IsDelivered :
      (max_retries failures : ℕ) (script : ℕ → Attempt) (t : Task os)
      → t.chunk.retries + failures < max 1 max_retries
      → t.verified_prefix ≡ none
      → ((i : ℕ) → i < failures → IsOutage (script i))
      → IsAnswer t.chunk t.writer (script failures)
      → IsDelivered failures t (download_chunk_with_retries os s message max_retries script t)
  unfolding download_chunk_with_retries
  download-IsDelivered max_retries failures script t left fresh outages answer =
      loop-IsDelivered (max 1 max_retries) failures (max 1 max_retries) 0 script t (omega arith)
        left fresh (λ i a b. outages i (omega arith))
        (λ i e.
          subst (λ k. IsAnswer t.chunk t.writer (script k)) {x = failures} {y = i}
            (omega (arith, e)) answer)
