-- ===== src/Engine/Attempts.antt =====
-- The loop over the attempts for a chunk ends within the attempts that are allowed.
use mathlib.Core.Path.{subst}
use relia_dl.Prelude.{ℕ, zero, suc, ◌+◌, ◌≤◌, ◌<◌, ◌≡◌, ◌⊎◌, inl, inr, refl, max, arith, ℕ_discrete}
use relia_dl.Prelude.Results.{Error, err}
use relia_dl.Models.{ChunkState}
use relia_dl.Writer.{Os, Laws}
use relia_dl.Writer.Calls.{HasRoom}
use relia_dl.Engine.Body.{Settings}
use relia_dl.Engine.Retry.{
  Attempt, Round, Task, attempt, continue, retry_loop, download_chunk_with_retries,
}
use relia_dl.Engine.Prefix.{IsPrefix}
use relia_dl.Engine.Writes.{Within, Within-trans, Within-HasRoom}
use relia_dl.Engine.Retried.{Ending, Ending-from, Failure, Failure-from, Goes, Tried, attempt-Tried}
use relia_dl.Prelude.Text.{Text}

module _ (os : Os) (laws : Laws os) (s : Settings) (message : Error → Text)
    (Selected : Error → Type 0) where
  -- The end of the loop after some failures, each of which left attempts.
  pub record Ended (limit round : ℕ) (script : ℕ → Attempt) (t : Task os) (r : Round × Task os)
      : Type 0 where
    pub failures : ℕ
    pub counted : r.1.chunk.retries ≡ t.chunk.retries + failures
    pub allowed : (failures ≡ 0) ⊎ (t.chunk.retries + failures < limit)
    pub retried :
        (i : ℕ) → round ≤ i → i < round + failures → Failure os s t.chunk (script i).exchange
    pub ending : Ending os laws s message Selected limit t.chunk r
    pub frame : Within os laws t.chunk.start_byte (t.chunk.end_byte + 1) t.writer r.1.writer

  no_Ending :
      (limit : ℕ) (c : ChunkState) (u : Task os)
      → ¬ Ending os laws s message Selected limit c (Round.again, u)
  no_Ending limit c u (Ending.complete d p x v h done range marked got) = absurd (cc)
  no_Ending limit c u (Ending.abandoned e bad status own reason) = absurd (cc)
  no_Ending limit c u (Ending.escaped e bad status cause) = absurd (cc)

  later-Ended :
      (limit round : ℕ) (script : ℕ → Attempt) (t u : Task os) (r : Round × Task os)
      → Goes os laws s message Selected limit (script round).exchange t.chunk (Round.again, u)
      → Within os laws t.chunk.start_byte (t.chunk.end_byte + 1) t.writer u.writer
      → Ended limit (suc round) script u r
      → Ended limit round script t r
  later-Ended limit round script t u r g frame e = record {
    failures = e.failures + 1;
    counted = omega (arith, e.counted, g.one_more);
    allowed = elim e.allowed [
      | inl none_more ↦ inr (omega (arith, g.allowed, g.one_more))
      | inr fewer ↦ inr (omega (arith, g.one_more))
    ];
    retried = λ i low high. elim (ℕ_discrete round i) [
      | yes now ↦ subst (λ k. Failure os s t.chunk (script k).exchange) now g.failure
      | no later ↦
          Failure-from os s t.chunk u.chunk (script i).exchange g.same_range
            (e.retried i (omega arith) (omega arith))
    ];
    ending = Ending-from os laws s message Selected limit t.chunk u.chunk r g.same_range e.ending;
    frame =
        Within-trans os laws t.chunk.start_byte (t.chunk.end_byte + 1) t.writer u.writer r.1.writer
          frame
          (subst (λ (k : ℕ). Within os laws k (t.chunk.end_byte + 1) u.writer r.1.writer)
            g.same_range.range_start
            (subst (λ (k : ℕ). Within os laws u.chunk.start_byte (k + 1) u.writer r.1.writer)
              g.same_range.range_end e.frame));
  }

  continue-Ended :
      (limit round : ℕ) (script : ℕ → Attempt) (t : Task os) (x : Round × Task os)
      (next : Task os → Round × Task os)
      → Tried os laws s message Selected limit (script round).exchange t x
      → (Goes os laws s message Selected limit (script round).exchange t.chunk x
          → Ended limit (suc round) script x.1 (next x.1))
      → Ended limit round script t (continue os s message limit next x)
  continue-Ended limit round script t (Round.again, u) next (inl g, frame) k =
      later-Ended limit round script t u (next u) g frame (k g)
  continue-Ended limit round script t (Round.again, u) next (inr (end, same), frame) k =
      absurd (no_Ending limit t.chunk u end)
  continue-Ended limit round script t (Round.returned, u) next (inl g, frame) k =
      let bad = g.goes in absurd (cc)
  continue-Ended limit round script t (Round.returned, u) next (inr (end, same), frame) k = record {
    failures = 0;
    counted = omega (arith, same);
    allowed = inl refl;
    retried = λ i low high. absurd (omega arith);
    ending = end;
    frame = frame;
  }
  continue-Ended limit round script t (Round.raised e, u) next (inl g, frame) k =
      let bad = g.goes in absurd (cc)
  continue-Ended limit round script t (Round.raised e, u) next (inr (end, same), frame) k = record {
    failures = 0;
    counted = omega (arith, same);
    allowed = inl refl;
    retried = λ i low high. absurd (omega arith);
    ending = end;
    frame = frame;
  }

  retry_loop-Ended :
      (limit n round : ℕ) (script : ℕ → Attempt) (t : Task os)
      → 0 < n
      → limit ≤ n + t.chunk.retries
      → IsPrefix t.chunk t.verified_prefix
      → HasRoom os t.writer
      → ((i : ℕ) (e : Error) → (script i).selection ≡ err e → Selected e)
      → Ended limit round script t (retry_loop os s message limit n round script t)
  unfolding retry_loop
  retry_loop-Ended limit zero round script t pos enough inside room chosen = absurd (omega arith)
  retry_loop-Ended limit (suc n) round script t pos enough inside room chosen =
      let x = attempt os s message limit (script round) t in
      let tried =
        attempt-Tried os laws s message Selected limit (script round) t (chosen round) inside
          room in
      continue-Ended limit round script t x (retry_loop os s message limit n (suc round) script)
        tried
        (λ g.
          retry_loop-Ended limit n (suc round) script x.1 (omega (arith, g.allowed, g.one_more))
            (omega (arith, g.one_more)) g.prefix
            (Within-HasRoom os laws t.chunk.start_byte (t.chunk.end_byte + 1) t.writer x.1.writer
              tried.1 room)
            chosen)

module _ (os : Os) (laws : Laws os) (s : Settings) (message : Error → Text) where
  -- The exceptions that the mirror selection raises in some round.
  abbrev pub Raises : (ℕ → Attempt) → Error → Type 0
  Raises script e = (i : ℕ) × ((script i).selection ≡ err e)

  -- The download of a chunk ends, whatever the mirrors and the servers do. First come some
  -- failures, each of a request for the chunk's range, in the order of the rounds, with a transient
  -- exception: a corrupted block or chunk, a network error, a retryable HTTP status. Each is counted
  -- as a retry, and none is beyond the attempts allowed. Then it returns with the chunk complete,
  -- its bytes in the file and the digest of them recorded; or it raises, with the chunk abandoned
  -- after an exception of the program's own that is not transient, or when no attempt is left; or
  -- it raises, with the chunk still in progress, a builtin exception or one that the mirror
  -- selection raised. Only bytes of the chunk's range have changed. The file has room for what the
  -- writer is for, and the verified prefix at the start ends inside the chunk.
  pub download-Ended :
      (max_retries : ℕ) (script : ℕ → Attempt) (t : Task os)
      → IsPrefix t.chunk t.verified_prefix
      → HasRoom os t.writer
      → Ended os laws s message
          (Raises script)
          (max 1 max_retries)
          0
          script
          t
          (download_chunk_with_retries os s message max_retries script t)
  unfolding download_chunk_with_retries
  download-Ended max_retries script t inside room =
      retry_loop-Ended os laws s message (Raises script) (max 1 max_retries) (max 1 max_retries) 0
        script t (omega arith) (omega arith) inside room (λ i e h. (i, h))
