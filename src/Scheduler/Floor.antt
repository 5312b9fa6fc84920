-- ===== src/Scheduler/Floor.antt =====
-- The concurrency floor: a chunk keeps its start, and the bytes cut off it return to the planner.
use relia_dl.Prelude.{
  lt→leb_false, le→leb, ℕ, ◌+◌, ◌-◌, ◌/◌, ◌≤◌, ◌<◌, ◌≡◌, min, max, arith, dec_lt,
}
use relia_dl.Prelude.Int.{pos, sub_ℕ}
use relia_dl.Prelude.Results.{ok}
use relia_dl.Models.Laws.{make_chunk_spec_range}
use relia_dl.Planner.{Planner, rewind_to}
use relia_dl.Planner.Steps.{chunk_at, behind}
use relia_dl.Scheduler.Defs.{min_chunk_size, shrink, apply_concurrency_floor}

-- The largest chunk that leaves every worker a share of what is not yet issued.
abbrev pub ceiling : ℕ → Planner → ℕ
ceiling workers p = max min_chunk_size ((p.file_size - p.offset) / workers)

-- The size that a chunk of `n` bytes at the cursor is left with.
abbrev pub kept : ℕ → ℕ → Planner → ℕ
kept workers n p = min n (ceiling workers p)

shrink_lem :
    (n m : ℕ) (p : Planner)
    → 0 < m
    → m < n
    → p.offset + n ≤ p.file_size
    → shrink m (chunk_at n p) (behind n p) ≡ ok (chunk_at m p, behind m p)
unfolding shrink rewind_to
shrink_lem n m p pos_m lt fits =
    let last : sub_ℕ (p.offset + m) 1 ≡ pos (p.offset + m - 1) = ground arith in
    rw (last, make_chunk_spec_range p.index p.offset (p.offset + m - 1) (omega arith))
      (ground arith)

-- The floor never fails on the chunk that the planner has just issued: the chunk becomes the one of
-- the smaller size at the same start, and the planner stands right behind it.
pub apply_concurrency_floor_lem :
    (workers n : ℕ) (p : Planner)
    → 0 < n
    → p.offset + n ≤ p.file_size
    → apply_concurrency_floor workers (chunk_at n p) (behind n p)
      ≡ ok (chunk_at (kept workers n p) p, behind (kept workers n p) p)
unfolding apply_concurrency_floor
apply_concurrency_floor_lem workers n p pos_n fits =
    let whole : p.file_size - (p.offset + n) + n ≡ p.file_size - p.offset = omega arith in
    elim (dec_lt (ceiling workers p) n) [
      | yes large ↦
          let small : kept workers n p ≡ ceiling workers p = omega arith in
          rw (whole, lt→leb_false n (ceiling workers p) large, small)
            (shrink_lem n (ceiling workers p) p (omega arith) large fits)
      | no fine ↦
          let same : kept workers n p ≡ n = omega arith in
          rw (whole, le→leb n (ceiling workers p) (omega arith), same)
    ]
