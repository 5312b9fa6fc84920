-- ===== src/Scheduler/Batch.antt =====
-- A batch of planned chunks.
use relia_dl.Prelude.{
  ℕ, zero, suc, ◌+◌, ◌-◌, ◌/◌, ◌≤◌, ◌<◌, ◌≡◌, refl, Option, List, [], ◌∷◌, map, length, max, arith,
  dec_lt,
}
use relia_dl.Prelude.Results.{Result, ok}
use relia_dl.Models.{ChunkState, new_chunk_state}
use relia_dl.Planner.{Sizer, Planner}
use relia_dl.Planner.Tiling.{Tiles, Tiles-from, Tiles-le, Counts, state_range}
use relia_dl.Planner.Steps.{IsInside, behind, taken, size_for_pos, next_chunk_done, next_chunk_step}
use relia_dl.Scheduler.Defs.{min_chunk_size, plan_loop}
use relia_dl.Scheduler.Floor.{ceiling, kept, apply_concurrency_floor_lem}

-- No chunk is larger than the minimum, or than a worker's share of the bytes from its start on.
abbrev pub AllShared : ℕ → ℕ → List ChunkState → Type 0
AllShared workers file_size [] = Unit
AllShared workers file_size (x ∷ xs) =
    (x.end_byte + 1 - x.start_byte ≤ max min_chunk_size ((file_size - x.start_byte) / workers))
    × AllShared workers file_size xs

-- What a batch of at most `wanted` chunks does to the planner `p`.
pub record Batch (workers wanted : ℕ) (p : Planner) (chunks : List ChunkState) (q : Planner)
    : Type 0 where
  pub tiles : Tiles p.offset q.offset (map state_range chunks)
  pub counts : Counts p.index (map (λ c. c.index) chunks)
  pub next_free : q.index ≡ p.index + length chunks
  pub file_kept : q.file_size ≡ p.file_size
  pub inside : IsInside q
  pub few : length chunks ≤ wanted
  pub moves : 0 < wanted → p.offset < p.file_size → p.offset < q.offset
  pub shared : AllShared workers p.file_size chunks

abbrev pub Planned : ℕ → ℕ → Planner → Result (List ChunkState × Planner) → Type 0
Planned workers wanted p r =
    (chunks : List ChunkState) × (q : Planner) × (r ≡ ok (chunks, q))
    × Batch workers wanted p chunks q

module _ {Snapshot : Type 0} (c : Sizer Snapshot) (state : Option Snapshot) (workers : ℕ) where
  abbrev portion : Planner → ℕ
  portion p = kept workers (taken c state p) p

  portion_bounds :
      (p : Planner)
      → p.offset < p.file_size
      → (0 < portion p) × (p.offset + portion p ≤ p.file_size) × (portion p ≤ ceiling workers p)
  portion_bounds p h = (omega (arith, size_for_pos c state), omega arith, omega arith)

  Batch-none :
      (wanted : ℕ) (p : Planner)
      → IsInside p
      → (0 < wanted → ¬ (p.offset < p.file_size))
      → Batch workers wanted p [] p
  Batch-none wanted p v stop = record {
    tiles = refl;
    counts = tt;
    next_free = omega arith;
    file_kept = refl;
    inside = v;
    few = omega arith;
    moves = λ some_wanted more. absurd (stop some_wanted more);
    shared = tt;
  }

  -- The first chunk of a batch, before the rest of it.
  Batch-more :
      (n wanted : ℕ) (p q : Planner) (rest : List ChunkState)
      → 0 < n
      → p.offset + n ≤ p.file_size
      → n ≤ ceiling workers p
      → Batch workers wanted (behind n p) rest q
      → Batch workers (suc wanted) p (new_chunk_state p.index p.offset (p.offset + n - 1) ∷ rest) q
  unfolding new_chunk_state
  Batch-more n wanted p q rest pos_n fits small b = record {
    tiles = (
      refl,
      omega arith,
      Tiles-from (p.offset + n) (p.offset + n - 1 + 1) q.offset (map state_range rest) (omega arith)
          b.tiles,
    );
    counts = (refl, b.counts);
    next_free = omega (arith, b.next_free);
    file_kept = b.file_kept;
    inside = b.inside;
    few = omega (arith, b.few);
    moves = λ _ _. omega (arith, Tiles-le (p.offset + n) q.offset (map state_range rest) b.tiles);
    shared = (omega arith, b.shared);
  }

  -- A batch never fails. It partitions the bytes between the two cursors, moves on unless the file
  -- is covered, and no chunk in it is larger than its concurrency ceiling.
  pub plan_loop-Planned :
      (wanted : ℕ) (p : Planner)
      → IsInside p
      → Planned workers wanted p (plan_loop c workers wanted state p)
  unfolding plan_loop
  plan_loop-Planned zero p v = ([], p, refl, Batch-none zero p v (λ h. absurd (omega arith)))
  plan_loop-Planned (suc wanted) p v = elim (dec_lt p.offset p.file_size) [
    | no done ↦ (
      [],
      p,
      rw (next_chunk_done c state p (omega arith), plan_loop),
      Batch-none (suc wanted) p v (λ _. done),
    )
    | yes more ↦
        let (pos_n, fits, small) = portion_bounds p more in
        let n = portion p in
        let (rest, q, e, b) = plan_loop-Planned wanted (behind n p) fits in
        (
          new_chunk_state p.index p.offset (p.offset + n - 1) ∷ rest,
          q,
          rw (
            next_chunk_step c state p more,
            plan_loop,
            apply_concurrency_floor_lem workers (taken c state p) p
                (omega (arith, size_for_pos c state)) (omega arith),
            e,
          ),
          Batch-more n wanted p q rest pos_n fits small b,
        )
  ]
