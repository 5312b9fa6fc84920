-- ===== src/Planner/Steps.antt =====
-- One call of the planner.
use relia_dl.Prelude.{lt→leb_false, ℕ, ◌+◌, ◌-◌, ◌≤◌, ◌<◌, ◌≡◌, Option, none, some, min, arith}
use relia_dl.Prelude.Int.{pos, sub_ℕ}
use relia_dl.Prelude.Results.{ok}
use relia_dl.Models.{ChunkSpec}
use relia_dl.Models.Laws.{make_chunk_spec_range}
use relia_dl.Planner.Cursor.{Sizer, Planner, size_for, next_chunk, issue}

-- The cursor never passes the end of the file.
abbrev pub IsInside : Planner → Type 0
IsInside p = p.offset ≤ p.file_size

abbrev pub chunk_at : ℕ → Planner → ChunkSpec
chunk_at taken p = record {
  index = p.index;
  start_byte = p.offset;
  end_byte = p.offset + taken - 1;
  size = taken;
  expected_hash = none;
}

abbrev pub behind : ℕ → Planner → Planner
behind taken p = record p { offset = p.offset + taken; index = p.index + 1 }

issue_lem : (n : ℕ) (p : Planner) → 0 < n → issue n p ≡ ok (some (chunk_at n p), behind n p)
unfolding issue
issue_lem n p h =
    let last : sub_ℕ (p.offset + n) 1 ≡ pos (p.offset + n - 1) = ground arith in
    rw (last, make_chunk_spec_range p.index p.offset (p.offset + n - 1) (omega arith))
      (ground arith)

module _ {Snapshot : Type 0} (c : Sizer Snapshot) where
  pub size_for_pos : (state : Option Snapshot) → 0 < size_for c state
  unfolding size_for
  size_for_pos none = c.default_pos
  size_for_pos (some s) = c.compute_pos s

  -- How many bytes the next chunk takes.
  abbrev pub taken : Option Snapshot → Planner → ℕ
  taken state p = min (size_for c state) (p.file_size - p.offset)

  pub next_chunk_done :
      (state : Option Snapshot) (p : Planner)
      → p.file_size ≤ p.offset
      → next_chunk c state p ≡ ok (none, p)
  unfolding next_chunk
  next_chunk_done state p h = ground arith

  pub next_chunk_step :
      (state : Option Snapshot) (p : Planner)
      → p.offset < p.file_size
      → next_chunk c state p ≡ ok (some (chunk_at (taken state p) p), behind (taken state p) p)
  unfolding next_chunk
  next_chunk_step state p h = rw (
    lt→leb_false p.file_size p.offset h,
    issue_lem (taken state p) p (omega (arith, size_for_pos state)),
  )
