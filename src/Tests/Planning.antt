-- ===== src/Tests/Planning.antt =====
-- Planner and scheduler on small files, with a controller that asks for 4 bytes, or as many as
-- told.
use relia_dl.Prelude.{
  List, All, ◌++◌, ℕ, ◌+◌, ◌%◌, ◌≤◌, ◌<◌, ◌≡◌, ◌≢◌, ◌⊎◌, refl, Bool, true, none, some, [], ◌∷◌, map,
  arith,
}
use relia_dl.Prelude.Int.{pos}
use relia_dl.Prelude.Results.{ok, err, configuration_error}
use relia_dl.Planner.{Sizer, Planner, plan_all, rewind_to, to_dict, from_dict}
use relia_dl.Models.{ChunkSpec, ChunkState, new_chunk_state}
use relia_dl.Planner.Tiling.{Tiles, Counts, Holds, spec_range, state_range}
use relia_dl.Planner.Steps.{IsInside, chunk_at, behind}
use relia_dl.Planner.Drain.{Drained, plan_all-Drained}
use relia_dl.Planner.Restore.{from_dict-to_dict, rewind_to_outcome}
use relia_dl.Scheduler.{
  Scheduler, Engine, fixed_partition, apply_concurrency_floor, plan_loop, advance_to, refill_queue,
  new_scheduler,
}
use relia_dl.Scheduler.Fixed.{index_of, fixed_partition-Tiles}
use relia_dl.Scheduler.Floor.{kept, apply_concurrency_floor_lem}
use relia_dl.Scheduler.Batch.{Planned, plan_loop-Planned}
use relia_dl.Scheduler.Refill.{
  Refilled, fresh, starting, refills, fresh-IsPlanned, refill_queue-Refilled, refills-Tiles,
}
use relia_dl.Scheduler.Advance.{advance_to_outcome}

abbrev sizer : Sizer ℕ
sizer = record {
  default_chunk_size = 4;
  compute_chunk_size = λ s. s + 1;
  default_pos = omega arith;
  compute_pos = λ s. omega arith;
}

abbrev half_way : Planner
half_way = record { file_size = 10; offset = 4; index = 1 }

half_way-IsInside : IsInside half_way
half_way-IsInside = omega arith

plan_all-Drained_example : Drained half_way (plan_all sizer (some 2) half_way)
plan_all-Drained_example = plan_all-Drained sizer (some 2) half_way half_way-IsInside

from_dict-to_dict_example : from_dict (to_dict half_way) ≡ ok half_way
from_dict-to_dict_example = from_dict-to_dict half_way half_way-IsInside

rewind_to_outcome_example :
    ((2 ≤ 4)
      × (rewind_to (pos 2) 0 half_way ≡ ok (record { file_size = 10; offset = 2; index = 0 }))
      × Drained
          (record { file_size = 10; offset = 2; index = 0 })
          (plan_all sizer none (record { file_size = 10; offset = 2; index = 0 })))
    ⊎ ((4 < 2) × (rewind_to (pos 2) 0 half_way ≡ err (configuration_error "offset")))
rewind_to_outcome_example = rewind_to_outcome sizer none half_way 2 0 half_way-IsInside

fixed_partition-Tiles_example :
    Tiles 0 10 (map state_range (fixed_partition 10 (pos 4)))
    × Counts 0 (map index_of (fixed_partition 10 (pos 4)))
fixed_partition-Tiles_example = fixed_partition-Tiles 10 (pos 4)

apply_concurrency_floor_lem_example :
    apply_concurrency_floor 3 (chunk_at 5 half_way) (behind 5 half_way)
    ≡ ok (chunk_at (kept 3 5 half_way) half_way, behind (kept 3 5 half_way) half_way)
apply_concurrency_floor_lem_example =
    apply_concurrency_floor_lem 3 5 half_way (omega arith) (omega arith)

plan_loop-Planned_example : Planned 3 2 half_way (plan_loop sizer 3 2 (some 2) half_way)
plan_loop-Planned_example = plan_loop-Planned sizer (some 2) 3 2 half_way half_way-IsInside

refill_queue-Refilled_example :
    (b : Bool) × (e : Engine) × (refill_queue sizer (some 2) (fresh sizer 10 4 2 3) ≡ ok (b, e))
    × Refilled 10 (record { file_size = 10; offset = 0; index = 0 }) (fresh sizer 10 4 2 3) b e
refill_queue-Refilled_example =
    refill_queue-Refilled sizer (some 2) 10 (record { file_size = 10; offset = 0; index = 0 })
      (fresh sizer 10 4 2 3) (fresh-IsPlanned sizer 10 4 2 3)

-- A controller whose default size is the least that is allowed.
abbrev least : Sizer ℕ
least = record {
  default_chunk_size = 1048576;
  compute_chunk_size = λ s. s + 1;
  default_pos = omega arith;
  compute_pos = λ s. omega arith;
}

refills-Tiles_example :
    let made = new_scheduler 3 1048576 true 2 3 in
    ((1048576 ≤ 1048576)
      × (1048576 ≤ 67108864)
      × (s : Scheduler) × (made ≡ ok s)
      × (e : Engine) × (refills least (none ∷ some 1 ∷ some 0 ∷ []) (starting least s) ≡ ok e)
      × Tiles 0 3 (map state_range e.chunks))
    ⊎ (((1048576 < 1048576) ⊎ (67108864 < 1048576))
        × (made ≡ err (configuration_error "default_chunk_size")))
refills-Tiles_example = refills-Tiles least (none ∷ some 1 ∷ some 0 ∷ []) 3 2 3 (omega arith)

abbrev resumed : Scheduler
resumed = record {
  file_size = 10;
  fixed_chunk_size = 4;
  adaptive_chunks = true;
  plan_batch = 2;
  workers = 3;
  planner = some (record { file_size = 10; offset = 0; index = 0 });
}

-- One chunk of five bytes, which is not a multiple of the default size.
abbrev done_before : List ChunkState
done_before = new_chunk_state 0 0 4 ∷ []

advance_to_outcome_example :
    (q : Planner) × (advance_to sizer 5 resumed ≡ some (ok (record resumed { planner = some q })))
    × (specs : List ChunkSpec) × (r : Planner) × (plan_all sizer none q ≡ some (ok (specs, r)))
    × (5 ≤ 10
        → 5 % 4 ≡ 0
        → (q.offset ≡ 5) × Tiles 0 10 (map state_range done_before ++ map spec_range specs))
    × (5 < 10
        → 5 % 4 ≢ 0
        → (5 < q.offset)
          × All (λ x. ¬ Holds 5 x) (map state_range done_before ++ map spec_range specs))
unfolding new_chunk_state
advance_to_outcome_example =
    advance_to_outcome sizer none 5 resumed (record { file_size = 10; offset = 0; index = 0 })
      done_before refl refl refl refl (omega arith) (refl, omega arith, refl)
