-- ===== src/Scheduler/Fixed.antt =====
-- The fixed partition: it covers the file, and the engine's older plan_chunks is the same function.
use native.Mathlib.Nat.{div-add-mod}
use relia_dl.Prelude.{
  lt→leb_false, ℕ, zero, suc, ◌+◌, ◌-◌, ◌*◌, ◌%◌, ◌≤◌, ◌<◌, ◌≡◌, refl, true, map, min, max,
  if◌then◌else◌, arith,
}
use relia_dl.Prelude.Int.{ℤ, pos, negsuc, pos_part, ltb_ℤ}
use relia_dl.Prelude.Results.{ok, err, value_error}
use relia_dl.Models.{ChunkState}
use relia_dl.Planner.Tiling.{Tiles, Tiles-from, Counts, state_range}
use relia_dl.Scheduler.Defs.{cut, rounds, fixed_partition, plan_chunks}

abbrev pub index_of : ChunkState → ℕ
index_of c = c.index

-- `count` rounds of `size` reach the end of the file, and one round less does not.
cut-Tiles :
    (count index start size file_size : ℕ)
    → 0 < size
    → file_size ≤ start + suc count * size
    → start + count * size < file_size
    → Tiles start file_size (map state_range (cut (suc count) index start size file_size))
unfolding cut
cut-Tiles zero index start size n p reach short = (refl, grind arith, grind arith)
cut-Tiles (suc count) index start size n p reach short = (
  refl,
  grind arith,
  Tiles-from (start + size) (min (start + size) n - 1 + 1) n
      (map state_range (cut (suc count) (index + 1) (start + size) size n)) (grind arith)
      (cut-Tiles count (index + 1) (start + size) size n p (grind arith) (grind arith)),
)

cut-Counts :
    (count index start size file_size : ℕ)
    → Counts index (map index_of (cut count index start size file_size))
unfolding cut
cut-Counts zero index start size n = tt
cut-Counts (suc count) index start size n =
    (refl, cut-Counts count (index + 1) (start + size) size n)

rounds_bounds :
    (n size : ℕ) → 0 < size → (n ≤ rounds n size * size) × (rounds n size * size < n + size)
rounds_bounds n size p =
    let whole = div-add-mod (n + size - 1) size in
    let part : (n + size - 1) % size < size = omega arith in (grind arith, grind arith)

full-Tiles :
    (k n size : ℕ)
    → 0 < size
    → n ≤ k * size
    → k * size < n + size
    → Tiles 0 n (map state_range (cut k 0 0 size n))
unfolding cut
full-Tiles zero n size p reach short = omega arith
full-Tiles (suc k) n size p reach short = cut-Tiles k 0 0 size n p (grind arith) (grind arith)

-- With no policy switched on the chunks cover the file exactly, numbered from zero.
pub fixed_partition-Tiles :
    (n : ℕ) (chunk_size : ℤ)
    → Tiles 0 n (map state_range (fixed_partition n chunk_size))
      × Counts 0 (map index_of (fixed_partition n chunk_size))
unfolding fixed_partition
fixed_partition-Tiles zero chunk_size = (refl, tt)
fixed_partition-Tiles (suc n) chunk_size =
    let size = max 1 (pos_part chunk_size) in
    let p : 0 < size = omega arith in
    let (reach, short) = rounds_bounds (suc n) size p in
    rw (lt→leb_false (suc n) 0 (omega arith), fixed_partition)
      (
        full-Tiles (rounds (suc n) size) (suc n) size p reach short,
        cut-Counts (rounds (suc n) size) 0 0 size (suc n),
      )

positive : (k : ℕ) → ltb_ℤ (pos 0) (pos (suc k)) ≡ true
positive k = ground arith

whole_size : (k : ℕ) → max 1 (suc k) ≡ suc k
whole_size k = omega arith

rounds_zero : (size : ℕ) → 0 < size → rounds 0 size ≡ 0
rounds_zero size p = let (reach, short) = rounds_bounds 0 size p in grind arith

-- plan_chunks refuses a chunk size below 1, and otherwise returns the scheduler's partition.
plan_chunks_outcome :
    (n : ℕ) (chunk_size : ℤ)
    → plan_chunks n chunk_size
      ≡ (if ltb_ℤ (pos 0) chunk_size then ok (fixed_partition n chunk_size) else err value_error)
unfolding plan_chunks fixed_partition
plan_chunks_outcome n (negsuc k) = ground arith
plan_chunks_outcome n (pos zero) = ground arith
plan_chunks_outcome zero (pos (suc k)) =
    rw (positive k, plan_chunks, rounds_zero (suc k) (omega arith))
plan_chunks_outcome (suc n) (pos (suc k)) =
    rw
      (positive k, plan_chunks, lt→leb_false (suc n) 0 (omega arith), fixed_partition, whole_size k)
