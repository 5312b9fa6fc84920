-- ===== src/Scheduler/Defs.antt =====
-- The operations. The planner is the scheduler's mutable state; what the constructor fixes is a
-- record of its own.
use relia_dl.Prelude.{
  ℕ, zero, suc, ◌+◌, ◌-◌, ◌/◌, Bool, true, false, not, ◌&&◌, ◌||◌, Option, none, some, List, [],
  ◌∷◌, ◌++◌, min, max, ltb, leb, if◌then◌else◌,
}
use relia_dl.Prelude.Int.{ℤ, pos, ltb_ℤ, pos_part, sub_ℕ}
use relia_dl.Prelude.Results.{
  Result, ok, err, configuration_error, value_error, raise_if, ◌>>=◌, ◌>>◌,
}
use relia_dl.Models.{ChunkSpec, ChunkState, make_chunk_spec, new_chunk_state}
use relia_dl.Planner.{Sizer, Planner, next_chunk, rewind_to, remaining_bytes, is_exhausted}

-- MIN_CHUNK_SIZE of adaptive_chunker.py
abbrev pub min_chunk_size : ℕ
min_chunk_size = 1048576

-- MAX_CHUNK_SIZE
abbrev pub max_chunk_size : ℕ
max_chunk_size = 67108864

-- The comprehension over `enumerate(range(start, file_size, size))`, of `count` rounds.
unfoldable pub cut : ℕ → ℕ → ℕ → ℕ → ℕ → List ChunkState
unfolding new_chunk_state
cut zero index start size file_size = []
cut (suc count) index start size file_size =
    new_chunk_state index start (min (start + size) file_size - 1)
    ∷ cut count (index + 1) (start + size) size file_size

-- How many rounds `range(0, file_size, size)` has.
abbrev pub rounds : ℕ → ℕ → ℕ
rounds file_size size = (file_size + size - 1) / size

-- _fixed_partition
unfoldable pub fixed_partition : ℕ → ℤ → List ChunkState
unfolding cut
fixed_partition file_size chunk_size =
    if leb file_size 0
    then []
    else (let size = max 1 (pos_part chunk_size) in cut (rounds file_size size) 0 0 size file_size)

-- plan_chunks
unfoldable pub plan_chunks : ℕ → ℤ → Result (List ChunkState)
unfolding cut
plan_chunks file_size chunk_size = do
  raise_if (not (ltb_ℤ (pos 0) chunk_size)) value_error
  let size = pos_part chunk_size
  ok (cut (rounds file_size size) 0 0 size file_size)

-- The shortened chunk, with the planner's cursor moved back behind it.
unfoldable pub shrink : ℕ → ChunkSpec → Planner → Result (ChunkSpec × Planner)
shrink ceiling spec p = do
  let last = sub_ℕ (spec.start_byte + ceiling) 1
  shrunk ← make_chunk_spec (pos spec.index) (pos spec.start_byte) last (pos 0) none
  q ← rewind_to (pos (shrunk.end_byte + 1)) (spec.index + 1) p
  ok (shrunk, q)

-- _apply_concurrency_floor, for the planner that issued the chunk; `workers` is at least 1.
unfoldable pub apply_concurrency_floor : ℕ → ChunkSpec → Planner → Result (ChunkSpec × Planner)
unfolding remaining_bytes shrink
apply_concurrency_floor workers spec p =
    let ceiling = max min_chunk_size ((remaining_bytes p + spec.size) / workers) in
    if leb spec.size ceiling then ok (spec, p) else shrink ceiling spec p

pub record Scheduler : Type 0 where
  pub file_size : ℕ
  pub fixed_chunk_size : ℕ
  pub adaptive_chunks : Bool
  pub plan_batch : ℕ
  pub workers : ℕ
  pub planner : Option Planner

-- What the constructor derives from its arguments; a missing `planner` means fixed sizes.
unfoldable pub set_up : ℕ → ℕ → Bool → ℕ → ℕ → Scheduler
set_up file_size fixed_chunk_size adaptive plan_batch workers = record {
  file_size = file_size;
  fixed_chunk_size = fixed_chunk_size;
  adaptive_chunks = adaptive;
  plan_batch = max 1 plan_batch;
  workers = max 1 workers;
  planner =
      if adaptive then some (record { file_size = file_size; offset = 0; index = 0 }) else none;
}

-- The constructor. For adaptive sizes it builds a BLDCSController, whose default size is the fixed
-- chunk size and has to lie within the controller's bounds.
unfoldable pub new_scheduler : ℕ → ℕ → Bool → ℕ → ℕ → Result Scheduler
new_scheduler file_size fixed_chunk_size adaptive plan_batch workers =
    if adaptive && (ltb fixed_chunk_size min_chunk_size || ltb max_chunk_size fixed_chunk_size)
    then err (configuration_error "default_chunk_size")
    else ok (set_up file_size fixed_chunk_size adaptive plan_batch workers)

-- What _refill_queue changes of the engine: the scheduler, the session's chunks and the queue.
pub record Engine : Type 0 where
  pub scheduler : Scheduler
  pub chunks : List ChunkState
  pub queue : List ChunkState

abbrev pub added : List ChunkState → Scheduler → Engine → Bool × Engine
added [] s e = (false, record e { scheduler = s })
added (x ∷ xs) s e =
    (true, record { scheduler = s; chunks = e.chunks ++ (x ∷ xs); queue = e.queue ++ (x ∷ xs) })

module _ {Snapshot : Type 0} (c : Sizer Snapshot) where
  -- The loop of plan_more: up to `wanted` rounds, left when the planner is exhausted.
  unfoldable pub plan_loop : ℕ → ℕ → Option Snapshot → Planner → Result (List ChunkState × Planner)
  unfolding new_chunk_state
  plan_loop workers zero state p = ok ([], p)
  plan_loop workers (suc wanted) state p = elim (next_chunk c state p) [
    | err e ↦ err e
    | ok (none, q) ↦ ok ([], q)
    | ok (some s, q) ↦ elim (apply_concurrency_floor workers s q) [
      | err e ↦ err e
      | ok (kept, r) ↦ elim (plan_loop workers wanted state r) [
        | err e ↦ err e
        | ok (rest, t) ↦ ok (new_chunk_state kept.index kept.start_byte kept.end_byte ∷ rest, t)
      ]
    ]
  ]

  abbrev pub wanted_of : Scheduler → Option ℕ → ℕ
  wanted_of s none = s.plan_batch
  wanted_of s (some n) = max 1 n

  unfoldable pub plan_with :
      ℕ → Option Snapshot → Scheduler → Option Planner → Result (List ChunkState × Scheduler)
  unfolding plan_loop
  plan_with wanted state s none = ok ([], s)
  plan_with wanted state s (some p) = do
    (chunks, q) ← plan_loop s.workers wanted state p
    ok (chunks, record s { planner = some q })

  -- plan_more; `state` is the collector's snapshot, or `none` while its estimators are not primed.
  unfoldable pub plan_more :
      Option ℕ → Option Snapshot → Scheduler → Result (List ChunkState × Scheduler)
  unfolding plan_with
  plan_more count state s =
      if s.adaptive_chunks then plan_with (wanted_of s count) state s s.planner else ok ([], s)

  -- plan_initial
  unfoldable pub plan_initial : Option Snapshot → Scheduler → Result (List ChunkState × Scheduler)
  unfolding fixed_partition plan_more
  plan_initial state s =
      if s.adaptive_chunks
      then plan_more (some s.plan_batch) state s
      else ok (fixed_partition s.file_size (pos s.fixed_chunk_size), s)

  -- The loop of advance_to: `none` when the fuel runs out.
  unfoldable pub advance_loop : ℕ → ℕ → Planner → Option (Result Planner)
  advance_loop zero offset p = none
  advance_loop (suc fuel) offset p = elim (not (is_exhausted p) && ltb p.offset offset) [
    | false ↦ some (ok p)
    | true ↦ elim (next_chunk c none p) [
      | err e ↦ some (err e)
      | ok (none, q) ↦ some (ok q)
      | ok (some s, q) ↦ advance_loop fuel offset q
    ]
  ]

  unfoldable pub advance_with : ℕ → Scheduler → Option Planner → Option (Result Scheduler)
  unfolding advance_loop
  advance_with offset s none = some (ok s)
  advance_with offset s (some p) = elim (advance_loop (s.file_size + 1) offset p) [
    | none ↦ none
    | some (err e) ↦ some (err e)
    | some (ok q) ↦ some (ok (record s { planner = some q }))
  ]

  -- advance_to; every round moves the cursor, so the file's size bounds them.
  unfoldable pub advance_to : ℕ → Scheduler → Option (Result Scheduler)
  unfolding advance_with
  advance_to offset s =
      if not s.adaptive_chunks || leb offset 0 then some (ok s) else advance_with offset s s.planner

  -- DownloadEngine._refill_queue
  unfoldable pub refill_queue : Option Snapshot → Engine → Result (Bool × Engine)
  unfolding plan_more
  refill_queue state e =
      if not e.scheduler.adaptive_chunks
      then ok (false, e)
      else (plan_more none state e.scheduler >>= λ r. ok (added r.0 r.1 e))

-- disable_planning
unfoldable pub disable_planning : Scheduler → Scheduler
disable_planning s = record s { adaptive_chunks = false; planner = none }
