-- ===== src/Scheduler/Refill.antt =====
-- The engine's queue and the adaptive planner together: what the session has planned so far.
use mathlib.Core.List.{map-append, append-nil}
use mathlib.Core.Path.{subst}
use relia_dl.Prelude.{
  ℕ, suc, ◌+◌, ◌≤◌, ◌<◌, ◌≡◌, refl, sym, ◌∙◌, dec_lt, lt→ltb, le→ltb_false, ◌⊎◌, inl, inr, Bool,
  true, false, Option, some, List, [], ◌∷◌, ◌++◌, map, length, arith,
}
use relia_dl.Prelude.Results.{Result, ok, err, configuration_error, ◌>>=◌}
use relia_dl.Models.{ChunkState}
use relia_dl.Planner.{Sizer, Planner}
use relia_dl.Planner.Tiling.{Tiles, Tiles-append, Tiles-le, state_range}
use relia_dl.Planner.Steps.{IsInside}
use relia_dl.Scheduler.Defs.{
  Engine, Scheduler, min_chunk_size, max_chunk_size, added, plan_loop, refill_queue, set_up,
  new_scheduler,
}
use relia_dl.Scheduler.Batch.{Batch, plan_loop-Planned}

-- An adaptive session over a file of `n` bytes that has planned everything before its cursor.
pub record IsPlanned (n : ℕ) (p : Planner) (e : Engine) : Type 0 where
  pub adaptive : e.scheduler.adaptive_chunks ≡ true
  pub batch_pos : 0 < e.scheduler.plan_batch
  pub planner : e.scheduler.planner ≡ some p
  pub whole : p.file_size ≡ n
  pub inside : IsInside p
  pub tiles : Tiles 0 p.offset (map state_range e.chunks)

-- What one call of _refill_queue does: it returns False exactly when the file was already covered,
-- and then changes no chunk; otherwise the cursor moves on, and the same chunks that are new in the
-- session are put in the queue.
pub record Refilled (n : ℕ) (p : Planner) (e : Engine) (b : Bool) (e' : Engine) : Type 0 where
  pub next : Planner
  pub planned : IsPlanned n next e'
  pub new : List ChunkState
  pub in_session : e'.chunks ≡ e.chunks ++ new
  pub in_queue : e'.queue ≡ e.queue ++ new
  pub when_true : b ≡ true → p.offset < next.offset
  pub when_false : b ≡ false → (p.offset ≡ n) × (next.offset ≡ n) × (new ≡ [])

covered_end :
    (n : ℕ) (p : Planner) (e : Engine)
    → IsPlanned n p e
    → (q : Planner) → Batch e.scheduler.workers e.scheduler.plan_batch p [] q
    → p.offset ≡ n
covered_end n p e v q b = elim (dec_lt p.offset p.file_size) [
  | yes more ↦ absurd (omega (arith, b.moves v.batch_pos more, b.tiles))
  | no done ↦ omega (arith, v.whole, v.inside)
]

first_moves :
    (p : Planner) (x : ChunkState) (xs : List ChunkState) (q : Planner)
    → Tiles p.offset q.offset (map state_range (x ∷ xs))
    → p.offset < q.offset
first_moves p x xs q t = omega (arith, Tiles-le (x.end_byte + 1) q.offset (map state_range xs) t.2)

-- A batch for the session, once it has been planned.
added-Refilled :
    (n : ℕ) (p : Planner) (e : Engine)
    → IsPlanned n p e
    → (chunks : List ChunkState) (q : Planner)
    → Batch e.scheduler.workers e.scheduler.plan_batch p chunks q
    → let r = added chunks (record (e.scheduler) { planner = some q }) e in Refilled n p e r.0 r.1
added-Refilled n p e v [] q b = record {
  next = q;
  planned = record {
    adaptive = v.adaptive;
    batch_pos = v.batch_pos;
    planner = refl;
    whole = b.file_kept ∙ v.whole;
    inside = b.inside;
    tiles = subst (λ m. Tiles 0 m (map state_range e.chunks)) b.tiles v.tiles;
  };
  new = [];
  in_session = sym (append-nil e.chunks);
  in_queue = sym (append-nil e.queue);
  when_true = λ h. cc;
  when_false = λ _. (covered_end n p e v q b, sym b.tiles ∙ covered_end n p e v q b, refl);
}
added-Refilled n p e v (x ∷ xs) q b = record {
  next = q;
  planned = record {
    adaptive = v.adaptive;
    batch_pos = v.batch_pos;
    planner = refl;
    whole = b.file_kept ∙ v.whole;
    inside = b.inside;
    tiles = rw (map-append state_range e.chunks (x ∷ xs)) (
        Tiles-append 0 p.offset q.offset (map state_range e.chunks) (map state_range (x ∷ xs))
          v.tiles b.tiles);
  };
  new = x ∷ xs;
  in_session = refl;
  in_queue = refl;
  when_true = λ _. first_moves p x xs q b.tiles;
  when_false = λ h. cc;
}

module _ {Snapshot : Type 0} (c : Sizer Snapshot) where
  all_planned :
      (n : ℕ) (p : Planner) (e : Engine)
      → IsPlanned n p e
      → n ≤ p.offset
      → Tiles 0 n (map state_range e.chunks)
  all_planned n p e v h =
      let whole : p.offset ≡ n = omega (arith, v.inside, v.whole) in
      subst (λ m. Tiles 0 m (map state_range e.chunks)) whole v.tiles

  refill_queue_lem :
      (state : Option Snapshot) (p : Planner) (e : Engine) (chunks : List ChunkState) (q : Planner)
      → e.scheduler.adaptive_chunks ≡ true
      → e.scheduler.planner ≡ some p
      → plan_loop c e.scheduler.workers e.scheduler.plan_batch state p ≡ ok (chunks, q)
      → refill_queue c state e ≡ ok (added chunks (record (e.scheduler) { planner = some q }) e)
  unfolding refill_queue
  refill_queue_lem state p e chunks q a b d = ground arith

  -- On an adaptive session that has planned everything before its cursor, _refill_queue never fails
  -- and leaves such a session. It returns False exactly when the file was already covered, and then
  -- plans nothing; when it returns True the cursor has moved, and what it adds to the session's
  -- chunks it adds to the queue too.
  pub refill_queue-Refilled :
      (state : Option Snapshot) (n : ℕ) (p : Planner) (e : Engine)
      → IsPlanned n p e
      → (b : Bool) × (e' : Engine) × (refill_queue c state e ≡ ok (b, e')) × Refilled n p e b e'
  refill_queue-Refilled state n p e v =
      let s = e.scheduler in
      let (chunks, q, eq, batch) = plan_loop-Planned c state s.workers s.plan_batch p v.inside in
      let r = added chunks (record s { planner = some q }) e in
      (
        r.0,
        r.1,
        refill_queue_lem state p e chunks q v.adaptive v.planner eq,
        added-Refilled n p e v chunks q batch,
      )

  -- Refills one after the other, each under the network state of its moment.
  pub refills : List (Option Snapshot) → Engine → Result Engine
  refills [] e = ok e
  refills (state ∷ states) e = refill_queue c state e >>= λ r. refills states r.1

  one_gained :
      (n : ℕ) (p : Planner) (e : Engine) (b : Bool) (e' : Engine) (r : Refilled n p e b e') (k : ℕ)
      → n ≤ p.offset + suc k
      → n ≤ r.next.offset + k
  one_gained n p e true e' r k h = omega (arith, r.when_true refl)
  one_gained n p e false e' r k h = omega (arith, (r.when_false refl).1)

  pub refills-IsPlanned :
      (states : List (Option Snapshot)) (n : ℕ) (p : Planner) (e : Engine)
      → IsPlanned n p e
      → (e' : Engine) × (q : Planner) × (refills states e ≡ ok e')
        × IsPlanned n q e'
        × (n ≤ p.offset + length states → n ≤ q.offset)
  unfolding refills
  refills-IsPlanned [] n p e v = (e, p, refl, v, λ h. omega arith)
  refills-IsPlanned (state ∷ states) n p e v =
      let (b, e₁, eq, r) = refill_queue-Refilled state n p e v in
      let (e₂, q, eqs, w, full) = refills-IsPlanned states n r.next e₁ r.planned in
      (e₂, q, rw (eq, refills) eqs, w, λ h. full (one_gained n p e b e₁ r (length states) h))

  -- The engine at the start of a session.
  abbrev pub starting : Scheduler → Engine
  starting s = record { scheduler = s; chunks = []; queue = [] }

  abbrev pub fresh : ℕ → ℕ → ℕ → ℕ → Engine
  fresh n fixed batch workers = starting (set_up n fixed true batch workers)

  pub fresh-IsPlanned :
      (n fixed batch workers : ℕ)
      → IsPlanned n (record { file_size = n; offset = 0; index = 0 }) (fresh n fixed batch workers)
  unfolding set_up
  fresh-IsPlanned n fixed batch workers = record {
    adaptive = refl;
    batch_pos = omega arith;
    planner = refl;
    whole = refl;
    inside = omega arith;
    tiles = refl;
  }

  refills_fresh :
      (states : List (Option Snapshot)) (n fixed batch workers : ℕ)
      → n ≤ length states
      → (e : Engine) × (refills states (fresh n fixed batch workers) ≡ ok e)
        × Tiles 0 n (map state_range e.chunks)
  refills_fresh states n fixed batch workers h =
      let (e, q, eq, v, full) =
        refills-IsPlanned states n _ _ (fresh-IsPlanned n fixed batch workers) in
      (e, eq, all_planned n q e v (full (omega arith)))

  -- A new adaptive session whose fixed chunk size, the default size of the controller, lies within
  -- the controller's bounds, is set up and, when it is refilled often enough (as often as the file
  -- has bytes suffices), whatever the network states of the refills are, never fails, and its
  -- chunks partition the file: no byte is missing and none is planned twice. With a size outside
  -- the bounds the session raises ConfigurationError when it is set up.
  pub refills-Tiles :
      (states : List (Option Snapshot)) (n batch workers : ℕ)
      → n ≤ length states
      → let fixed = c.default_chunk_size in
        let made = new_scheduler n fixed true batch workers in
        ((min_chunk_size ≤ fixed)
          × (fixed ≤ max_chunk_size)
          × (s : Scheduler) × (made ≡ ok s)
          × (e : Engine) × (refills states (starting s) ≡ ok e)
          × Tiles 0 n (map state_range e.chunks))
        ⊎ (((fixed < min_chunk_size) ⊎ (max_chunk_size < fixed))
            × (made ≡ err (configuration_error "default_chunk_size")))
  unfolding new_scheduler
  refills-Tiles states n batch workers h =
      let fixed = c.default_chunk_size in
      elim (dec_lt fixed min_chunk_size) [
        | yes small ↦ inr (inl small, rw (lt→ltb fixed min_chunk_size small) refl)
        | no low ↦ elim (dec_lt max_chunk_size fixed) [
          | yes large ↦ inr (
            inr large,
            rw (le→ltb_false fixed min_chunk_size (omega arith), lt→ltb max_chunk_size fixed large)
                refl,
          )
          | no high ↦
              let (e, run, tiles) = refills_fresh states n fixed batch workers h in
              inl (
                omega arith,
                omega arith,
                set_up n fixed true batch workers,
                rw
                    (
                      le→ltb_false fixed min_chunk_size (omega arith),
                      le→ltb_false max_chunk_size fixed (omega arith),
                    )
                    refl,
                e,
                run,
                tiles,
              )
        ]
      ]
