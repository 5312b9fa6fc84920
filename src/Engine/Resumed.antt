-- ===== src/Engine/Resumed.antt =====
-- What a resume keeps: the chunks whose bytes still have their digest, and the state of the last
-- checkpoint.
use mathlib.Core.Path.{subst}
use relia_dl.Prelude.{
  ℕ, Bool-cases, ◌≡◌, inl, inr, refl, sym, ap, ◌∙◌, Bool, true, false, Option, none, some, List, [],
  ◌∷◌, map, All, if◌then◌else◌,
}
use relia_dl.Prelude.Results.{Result, ok, err, bind_ok, ◌>>=◌}
use relia_dl.Prelude.Text.{Text}
use relia_dl.Merkle.{Bytes}
use relia_dl.Models.{
  ChunkStatus, DownloadStatus, ChunkState, DownloadState, is_successful, is_abandoned,
}
use relia_dl.Writer.{Os, SparseFileWriter, sync, close}
use relia_dl.State.{Disk, Codec, Calls, load}
use relia_dl.State.Loading.{ReadsBack}
use relia_dl.State.Recovery.{load-save}
use relia_dl.Engine.Errors.{constant_time_compare}
use relia_dl.Engine.Body.{Settings}
use relia_dl.Engine.Demoted.{AllDemoted, IsRested, map-AllDemoted, demote-IsRested}
use relia_dl.Engine.Resume.{
  reset_chunk, traverse, demote, chunk_bytes, revalidate_digest, revalidate_chunk,
  revalidate_chunks, checkpoint_interrupted, after_sync,
}

module _ (os : Os) (s : Settings) (w : SparseFileWriter os) where
  -- Why a chunk that the state calls successful is not kept: no digest is recorded for it, or the
  -- bytes read for its range have another.
  pub data IsDoubtful (c : ChunkState) : Type 0 where
    unrecorded : c.computed_hash ≡ none → IsDoubtful c
    blank : c.computed_hash ≡ some [] → IsDoubtful c
    differs :
        (bytes : Bytes) (h : Text)
        → c.computed_hash ≡ some h
        → chunk_bytes os c w ≡ ok bytes
        → constant_time_compare (s.hexdigest bytes) h ≡ false
        → IsDoubtful c

  -- What becomes of a chunk: one that the state calls successful is kept when its bytes have the
  -- digest that was recorded for it, and waits again, without a digest, when not.
  pub data Revalidated (c d : ChunkState) : Type 0 where
    kept :
        (bytes : Bytes) (h : Text)
        → is_successful c.status ≡ true
        → c.computed_hash ≡ some h
        → chunk_bytes os c w ≡ ok bytes
        → constant_time_compare (s.hexdigest bytes) h ≡ true
        → d ≡ c
        → Revalidated c d
    reset :
        is_successful c.status ≡ true
        → IsDoubtful c
        → d ≡ record c { status = ChunkStatus.pending; hash_verified = false; computed_hash = none }
        → Revalidated c d
    untouched : is_successful c.status ≡ false → d ≡ c → Revalidated c d

  abbrev pub AllRevalidated : List ChunkState → List ChunkState → Type 0
  AllRevalidated [] [] = Unit
  AllRevalidated (c ∷ cs) (d ∷ ds) = Revalidated c d × AllRevalidated cs ds
  AllRevalidated _ _ = ⊥

  successful_kept :
      (k : ChunkStatus) (n : ℕ) → is_successful k ≡ true → (if is_abandoned k then 0 else n) ≡ n
  unfolding is_successful is_abandoned
  successful_kept ChunkStatus.pending n e = absurd (cc)
  successful_kept ChunkStatus.downloading n e = absurd (cc)
  successful_kept ChunkStatus.in_progress n e = absurd (cc)
  successful_kept ChunkStatus.verifying n e = absurd (cc)
  successful_kept ChunkStatus.complete n e = refl
  successful_kept ChunkStatus.completed n e = refl
  successful_kept ChunkStatus.failed n e = absurd (cc)
  successful_kept ChunkStatus.abandoned n e = absurd (cc)

  -- A successful chunk keeps its count of retries.
  Revalidated-reset :
      (c d : ChunkState)
      → is_successful c.status ≡ true
      → IsDoubtful c
      → reset_chunk c ≡ d
      → Revalidated c d
  unfolding reset_chunk
  Revalidated-reset c d good why e = Revalidated.reset good why (
      sym e
      ∙ ap
          (λ n. record c {
            retries = n;
            status = ChunkStatus.pending;
            hash_verified = false;
            computed_hash = none;
          })
          (successful_kept c.status c.retries good))

  compared :
      (c d : ChunkState) (bytes : Bytes) (h : Text)
      → is_successful c.status ≡ true
      → c.computed_hash ≡ some h
      → chunk_bytes os c w ≡ ok bytes
      → (if constant_time_compare (s.hexdigest bytes) h then c else reset_chunk c) ≡ d
      → Revalidated c d
  compared c d bytes h good known read e =
      elim (Bool-cases (constant_time_compare (s.hexdigest bytes) h)) [
        | inl same ↦ Revalidated.kept bytes h good known read same (sym (rw same at e))
        | inr other ↦
            Revalidated-reset c d good (IsDoubtful.differs bytes h known read other) (rw other at e)
      ]

  by_digest :
      (c d : ChunkState) (o : Option Text)
      → is_successful c.status ≡ true
      → c.computed_hash ≡ o
      → revalidate_digest os s w c o ≡ ok d
      → Revalidated c d
  by_digest c d none good known e = Revalidated-reset c d good (IsDoubtful.unrecorded known) (cc)
  by_digest c d (some []) good known e = Revalidated-reset c d good (IsDoubtful.blank known) (cc)
  by_digest c d (some (x ∷ h)) good known e =
      let (bytes, read, done) =
        bind_ok (chunk_bytes os c w)
          (λ b. ok (if constant_time_compare (s.hexdigest b) (x ∷ h) then c else reset_chunk c)) d
          e in
      let same : (if constant_time_compare (s.hexdigest bytes) (x ∷ h) then c else reset_chunk c)
          ≡ d =
        cc in
      compared c d bytes (x ∷ h) good known read same

  chunk-Revalidated : (c d : ChunkState) → revalidate_chunk os s w c ≡ ok d → Revalidated c d
  unfolding revalidate_chunk
  chunk-Revalidated c d e = elim (Bool-cases (is_successful c.status)) [
    | inl good ↦ by_digest c d c.computed_hash good refl (rw good at e)
    | inr idle ↦
        let done : ok c ≡ ok d = rw idle at e in
        let same : c ≡ d = cc in Revalidated.untouched idle (sym same)
  ]

  traverse-Revalidated :
      (cs ds : List ChunkState)
      → traverse (revalidate_chunk os s w) cs ≡ ok ds
      → AllRevalidated cs ds
  traverse-Revalidated [] [] e = tt
  traverse-Revalidated [] (d ∷ ds) e = absurd (cc)
  traverse-Revalidated (c ∷ cs) ds e =
      let (d, one, later) =
        bind_ok (revalidate_chunk os s w c)
          (λ d. traverse (revalidate_chunk os s w) cs >>= λ es. ok (d ∷ es)) ds e in
      let (es, many, done) =
        bind_ok (traverse (revalidate_chunk os s w) cs) (λ es. ok (d ∷ es)) ds later in
      let same : d ∷ es ≡ ds = cc in
      subst (AllRevalidated (c ∷ cs)) same
        (chunk-Revalidated c d one, traverse-Revalidated cs es many)

  -- When a resume has read the part file, a chunk is still successful only if the bytes read for
  -- its range have the digest that the state recorded for it, and is then as it was. A successful
  -- chunk without a digest, or whose bytes have another, is pending again with its digest dropped
  -- and the rest of it as it was. The chunks that were not successful are as they were.
  pub revalidate-AllRevalidated :
      (d e : DownloadState) → revalidate_chunks os s w d ≡ ok e → AllRevalidated d.chunks e.chunks
  unfolding revalidate_chunks
  revalidate-AllRevalidated d e run =
      let (cs, all, done) =
        bind_ok (traverse (revalidate_chunk os s w) d.chunks) (λ cs. ok (record d { chunks = cs }))
          e run in
      let same : record d { chunks = cs } ≡ e = cc in
      subst (λ x. AllRevalidated d.chunks x.chunks) same (traverse-Revalidated d.chunks cs all)

after_sync-saved :
    (os : Os) (codec : Codec DownloadState) (backup auto : Bool) (calls again : Calls)
    (left : DownloadState) (law : ReadsBack codec left) (w : SparseFileWriter os) (disk : Disk)
    (x : Result (Unit {0}))
    → let r = after_sync os codec backup calls x left w disk in
      r.0 ≡ ok tt
      → (load codec auto backup again r.3 ≡ (ok left, r.3)) × (r.1 ≡ left) × (r.2.is_closed ≡ true)
unfolding close
after_sync-saved os codec backup auto calls again left law w disk (err e) run = absurd (cc)
after_sync-saved os codec backup auto calls again left law w disk (ok u) run =
    (load-save codec auto backup backup calls again left disk law run, refl, refl)

-- When the checkpoint of an interrupted session returns, then a later load gives the session that
-- the checkpoint leaves: with the status of the interruption and its other fields as they were, and
-- the chunks in order, of which those in progress, downloading or failed are pending, with the rest
-- of them as it was, and all others are as they were, so that none is in progress, downloading or
-- failed. The writer is closed. JSON reads this session back.
pub interrupted-IsResumable :
    (os : Os) (codec : Codec DownloadState) (backup auto : Bool) (calls again : Calls)
    (status : DownloadStatus) (d : DownloadState) (w : SparseFileWriter os) (disk : Disk)
    → ReadsBack codec (record d { chunks = map demote d.chunks; status = status })
    → (checkpoint_interrupted os codec backup calls status d w disk).0 ≡ ok tt
    → let r = checkpoint_interrupted os codec backup calls status d w disk in
      (load codec auto backup again r.3 ≡ (ok r.1, r.3))
      × (r.1 ≡ record d { chunks = r.1.chunks; status = status })
      × AllDemoted d.chunks r.1.chunks
      × All IsRested r.1.chunks
      × (r.2.is_closed ≡ true)
unfolding checkpoint_interrupted
interrupted-IsResumable os codec backup auto calls again status d w disk law run =
    let left = record d { chunks = map demote d.chunks; status = status } in
    let (loaded, left_there, closed) =
      after_sync-saved os codec backup auto calls again left law w disk (sync os w) run in
    (
      loaded
          ∙ ap (λ k. (ok k, (after_sync os codec backup calls (sync os w) left w disk).3))
              (sym left_there),
      left_there ∙ ap (λ k. record d { chunks = k.chunks; status = status }) (sym left_there),
      subst (λ k. AllDemoted d.chunks k.chunks) (sym left_there) (map-AllDemoted d.chunks),
      subst (λ k. All IsRested k.chunks) (sym left_there) (demote-IsRested d.chunks),
      closed,
    )
