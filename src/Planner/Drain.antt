-- ===== src/Planner/Drain.antt =====
-- The loop that empties the planner: it ends, and what it returns partitions what was left.
use relia_dl.Prelude.{
  ℕ, zero, suc, ◌+◌, ◌-◌, ◌≤◌, ◌<◌, ◌≡◌, refl, Option, some, List, [], ◌∷◌, map, length, arith,
  dec_lt,
}
use relia_dl.Prelude.Results.{Result, ok}
use relia_dl.Models.{ChunkSpec}
use relia_dl.Planner.Cursor.{Sizer, Planner, plan_all_loop, plan_all}
use relia_dl.Planner.Tiling.{Tiles, Tiles-from, Counts, spec_range}
use relia_dl.Planner.Steps.{
  IsInside, chunk_at, behind, taken, size_for_pos, next_chunk_done, next_chunk_step,
}

-- What a drained planner has handed out.
pub record Partition (p : Planner) (specs : List ChunkSpec) (q : Planner) : Type 0 where
  pub tiles : Tiles p.offset p.file_size (map spec_range specs)
  pub counts : Counts p.index (map (λ s. s.index) specs)
  pub at_end : q.offset ≡ p.file_size
  pub file_kept : q.file_size ≡ p.file_size
  pub next_free : q.index ≡ p.index + length specs

-- A loop's result, with the partition that it stands for.
abbrev pub Drained : Planner → Option (Result (List ChunkSpec × Planner)) → Type 0
Drained p r =
    (specs : List ChunkSpec) × (q : Planner) × (r ≡ some (ok (specs, q))) × Partition p specs q

module _ {Snapshot : Type 0} (c : Sizer Snapshot) (state : Option Snapshot) where
  taken_bounds :
      (p : Planner)
      → p.offset < p.file_size
      → (0 < taken c state p) × (p.offset + taken c state p ≤ p.file_size)
  taken_bounds p h = (omega (arith, size_for_pos c state), omega arith)

  plan_all_loop-Drained :
      (fuel : ℕ) (p : Planner)
      → IsInside p
      → p.file_size - p.offset < fuel
      → Drained p (plan_all_loop c fuel state p)
  unfolding plan_all_loop
  plan_all_loop-Drained zero p v h = elim h [ ]
  plan_all_loop-Drained (suc fuel) p v h = elim (dec_lt p.offset p.file_size) [
    | no done ↦ (
      [],
      p,
      rw (next_chunk_done c state p (omega arith), plan_all_loop),
      record {
        tiles = omega arith;
        counts = tt;
        at_end = omega arith;
        file_kept = refl;
        next_free = omega arith;
      },
    )
    | yes more ↦
        let (pos, fits) = taken_bounds p more in
        let n = taken c state p in
        let (specs, q, e, part) =
          plan_all_loop-Drained fuel (behind n p) (omega arith) (omega arith) in
        (
          chunk_at n p ∷ specs,
          q,
          rw (next_chunk_step c state p more, plan_all_loop, e),
          record {
            tiles = (refl, omega arith, Tiles-from _ _ _ _ (omega arith) part.tiles);
            counts = (refl, part.counts);
            at_end = part.at_end;
            file_kept = part.file_kept;
            next_free = omega (arith, part.next_free);
          },
        )
  ]

  -- plan_all ends, raises nothing, and its chunks partition the bytes from the cursor to the end of
  -- the file, numbered upwards from the planner's index; the planner is left exhausted.
  pub plan_all-Drained : (p : Planner) → IsInside p → Drained p (plan_all c state p)
  unfolding plan_all
  plan_all-Drained p v = plan_all_loop-Drained (p.file_size - p.offset + 1) p v (omega arith)
