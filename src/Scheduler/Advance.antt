-- ===== src/Scheduler/Advance.antt =====
-- Resuming: where advance_to leaves the cursor, and what the chunks of the resumed session hold.
use native.Mathlib.Nat.{div-add-mod', mul-mod_left}
use mathlib.Core.Path.{subst}
use relia_dl.Prelude.{
  All, All-append, Option, List, ◌++◌, map, ℕ, zero, suc, ◌+◌, ◌-◌, ◌*◌, ◌/◌, ◌%◌, ◌≤◌, ◌<◌, ◌≡◌,
  ◌≢◌, refl, ◌⊎◌, inl, inr, true, false, not, ◌&&◌, some, none, ltb, min, arith, dec_lt, ℕ_discrete,
}
use relia_dl.Prelude.Results.{ok}
use relia_dl.Models.{ChunkSpec, ChunkState}
use relia_dl.Planner.{Sizer, Planner, size_for, is_exhausted, plan_all}
use relia_dl.Planner.Drain.{plan_all-Drained}
use relia_dl.Planner.Tiling.{
  Range, Tiles, Holds, Tiles-append, Tiles-above, Tiles-below, spec_range, state_range,
}
use relia_dl.Planner.Steps.{IsInside, behind, taken, size_for_pos, next_chunk_step}
use relia_dl.Scheduler.Defs.{Scheduler, advance_loop, advance_to}

-- Where the cursor `q` stands after it was advanced from `p` towards `goal` in steps of `step`
-- bytes.
pub record Landing (goal step : ℕ) (p q : Planner) : Type 0 where
  pub file_kept : q.file_size ≡ p.file_size
  pub inside : IsInside q
  pub reached : min goal p.file_size ≤ q.offset
  pub on_step : (q.offset ≡ p.file_size) ⊎ ((k : ℕ) × (q.offset ≡ k * step))
  pub no_further : (m : ℕ) → goal ≤ m * step → p.offset ≤ m * step → q.offset ≤ m * step

-- A step from a multiple of the step size that lies before the goal stays below each multiple that
-- the goal lies below.
grid_step : (k m d n goal o : ℕ) → o ≡ k * d → o < goal → goal ≤ m * d → n ≤ d → o + n ≤ m * d
grid_step k m d n goal o e lt le small = elim (dec_lt k m) [
  | yes below ↦ let up : suc k * d ≤ m * d = grind arith in grind arith
  | no above ↦ let down : m * d ≤ k * d = grind arith in absurd (omega arith)
]

module _ {Snapshot : Type 0} (c : Sizer Snapshot) where
  abbrev step : ℕ
  step = c.default_chunk_size

  going :
      (goal : ℕ) (p : Planner)
      → p.offset < p.file_size
      → p.offset < goal
      → (not (is_exhausted p) && ltb p.offset goal) ≡ true
  unfolding is_exhausted
  going goal p a b = ground arith

  stopping :
      (goal : ℕ) (p : Planner)
      → (p.file_size ≤ p.offset) ⊎ (goal ≤ p.offset)
      → (not (is_exhausted p) && ltb p.offset goal) ≡ false
  unfolding is_exhausted
  stopping goal p h = ground arith

  Landing-here :
      (goal : ℕ) (p : Planner) (k : ℕ)
      → IsInside p
      → (p.offset ≡ p.file_size) ⊎ (p.offset ≡ k * step)
      → (p.file_size ≤ p.offset) ⊎ (goal ≤ p.offset)
      → Landing goal step p p
  Landing-here goal p k v at stop = record {
    file_kept = refl;
    inside = v;
    reached = omega arith;
    on_step = elim at [ inl e ↦ inl e | inr e ↦ inr (k, e) ];
    no_further = λ m a b. b;
  }

  -- One step from a cursor on the grid, and the rest of the way.
  Landing-step :
      (goal : ℕ) (p q : Planner) (k n : ℕ)
      → p.offset ≡ k * step
      → p.offset < goal
      → n ≤ step
      → Landing goal step (behind n p) q
      → Landing goal step p q
  Landing-step goal p q k n e lt small h = record {
    file_kept = h.file_kept;
    inside = h.inside;
    reached = h.reached;
    on_step = h.on_step;
    no_further = λ m a b. h.no_further m a (grid_step k m step n goal p.offset e lt a small);
  }

  -- The first cursor that is not at the end of the file lies on the grid.
  on_grid :
      (p : Planner) (k : ℕ)
      → (p.offset ≡ p.file_size) ⊎ (p.offset ≡ k * step)
      → p.offset < p.file_size
      → p.offset ≡ k * step
  on_grid p k (inl e) h = absurd (omega arith)
  on_grid p k (inr e) h = e

  taken-le : (p : Planner) → taken c none p ≤ step
  unfolding size_for
  taken-le p = omega arith

  next_on_grid :
      (p : Planner) (k : ℕ)
      → p.offset ≡ k * step
      → p.offset < p.file_size
      → (p.offset + taken c none p ≡ p.file_size) ⊎ (p.offset + taken c none p ≡ (k + 1) * step)
  unfolding size_for
  next_on_grid p k e h = elim (dec_lt (p.file_size - p.offset) step) [
    | yes last ↦ inl (omega arith)
    | no full ↦ inr (let whole : (k + 1) * step ≡ k * step + step = grind arith in omega arith)
  ]

  advance_loop-Landing :
      (fuel goal : ℕ) (p : Planner) (k : ℕ)
      → IsInside p
      → (p.offset ≡ p.file_size) ⊎ (p.offset ≡ k * step)
      → p.file_size - p.offset < fuel
      → (q : Planner) × (advance_loop c fuel goal p ≡ some (ok q)) × Landing goal step p q
  unfolding advance_loop
  advance_loop-Landing zero goal p k v at f = elim f [ ]
  advance_loop-Landing (suc fuel) goal p k v at f = elim (dec_lt p.offset p.file_size) [
    | no done ↦ (
      p,
      rw (stopping goal p (inl (omega arith)), advance_loop),
      Landing-here goal p k v at (inl (omega arith)),
    )
    | yes more ↦ elim (dec_lt p.offset goal) [
      | no there ↦ (
        p,
        rw (stopping goal p (inr (omega arith)), advance_loop),
        Landing-here goal p k v at (inr (omega arith)),
      )
      | yes short ↦
          let n = taken c none p in
          let pos_n : 0 < n = omega (arith, size_for_pos c none) in
          let (q, e, h) =
            advance_loop-Landing fuel goal (behind n p) (k + 1) (omega arith)
              (next_on_grid p k (on_grid p k at more) more) (omega arith) in
          (
            q,
            rw (going goal p more short, advance_loop, next_chunk_step c none p more) e,
            Landing-step goal p q k n (on_grid p k at more) short (taken-le p) h,
          )
    ]
  ]

  Landing-exact :
      (goal : ℕ) (p q : Planner)
      → p.offset ≡ 0
      → Landing goal step p q
      → goal ≤ p.file_size
      → goal % step ≡ 0
      → q.offset ≡ goal
  Landing-exact goal p q start h fits even =
      let whole : goal ≡ goal / step * step = omega (arith, div-add-mod' goal step) in
      omega (arith, h.reached, h.no_further (goal / step) (omega arith) (omega arith))

  not_on_grid : (goal k : ℕ) → goal ≡ k * step → goal % step ≡ 0
  not_on_grid goal k e = rw e (mul-mod_left k step)

  Landing-past :
      (goal : ℕ) (p q : Planner)
      → Landing goal step p q
      → goal < p.file_size
      → goal % step ≢ 0
      → goal < q.offset
  Landing-past goal p q h short odd = elim h.on_step [
    | inl e ↦ omega arith
    | inr (k, e) ↦ elim (ℕ_discrete goal (k * step)) [
      | yes same ↦ absurd (odd (not_on_grid goal k same))
      | no other ↦ omega (arith, h.reached)
    ]
  ]

  advance_to_eq :
      (goal : ℕ) (s : Scheduler) (p q : Planner)
      → s.adaptive_chunks ≡ true
      → s.planner ≡ some p
      → 0 < goal
      → advance_loop c (s.file_size + 1) goal p ≡ some (ok q)
      → advance_to c goal s ≡ some (ok (record s { planner = some q }))
  unfolding advance_to
  advance_to_eq goal s p q a b d e = ground arith

  -- The earlier chunks and those that the planner still gives.
  whole_session :
      (goal : ℕ) (p q : Planner) (earlier later : List Range)
      → p.offset ≡ 0
      → Landing goal step p q
      → Tiles 0 goal earlier
      → Tiles q.offset q.file_size later
      → (goal ≤ p.file_size
          → goal % step ≡ 0
          → (q.offset ≡ goal) × Tiles 0 p.file_size (earlier ++ later))
        × (goal < p.file_size
            → goal % step ≢ 0
            → (goal < q.offset) × All (λ r. ¬ Holds goal r) (earlier ++ later))
  whole_session goal p q earlier later start h before after = (
    (λ fits even.
        let there = Landing-exact goal p q start h fits even in
        (
          there,
          Tiles-append 0 goal p.file_size earlier later before (
              subst (λ n. Tiles n p.file_size later) there
                (subst (λ n. Tiles q.offset n later) h.file_kept after)),
        )),
    λ short odd.
        let past = Landing-past goal p q h short odd in
        (
          past,
          All-append (λ r. ¬ Holds goal r) earlier later
              (Tiles-below goal 0 goal earlier (omega arith) before)
              (Tiles-above goal q.offset q.file_size later past after),
        ),
  )

  -- Resuming an adaptive session with its planner at byte 0, whose earlier chunks partition the
  -- bytes before `goal`; the planner then gives chunks up to the end of the file. If `goal` is in
  -- the file or at its end and a multiple of the default chunk size, the cursor comes to stand at
  -- `goal`, and the earlier chunks and the new ones partition the file. If it is inside the file
  -- and no such multiple, the cursor comes to stand beyond `goal`, and the byte at `goal` is in no
  -- chunk, earlier or new.
  pub advance_to_outcome :
      (state : Option Snapshot) (goal : ℕ) (s : Scheduler) (p : Planner) (earlier : List ChunkState)
      → s.adaptive_chunks ≡ true
      → s.planner ≡ some p
      → p.offset ≡ 0
      → p.file_size ≡ s.file_size
      → 0 < goal
      → Tiles 0 goal (map state_range earlier)
      → (q : Planner) × (advance_to c goal s ≡ some (ok (record s { planner = some q })))
        × (specs : List ChunkSpec) × (r : Planner) × (plan_all c state q ≡ some (ok (specs, r)))
        × (goal ≤ p.file_size
            → goal % step ≡ 0
            → (q.offset ≡ goal)
              × Tiles 0 p.file_size (map state_range earlier ++ map spec_range specs))
        × (goal < p.file_size
            → goal % step ≢ 0
            → (goal < q.offset)
              × All (λ x. ¬ Holds goal x) (map state_range earlier ++ map spec_range specs))
  advance_to_outcome state goal s p earlier a b start same pos_goal before =
      let (q, e, h) =
        advance_loop-Landing (s.file_size + 1) goal p 0 (omega arith) (inr (omega arith))
          (omega arith) in
      let (specs, r, rest, part) = plan_all-Drained c state q h.inside in
      let (exact, past) =
        whole_session goal p q (map state_range earlier) (map spec_range specs) start h before
          part.tiles in
      (q, advance_to_eq goal s p q a b pos_goal e, specs, r, rest, exact, past)
