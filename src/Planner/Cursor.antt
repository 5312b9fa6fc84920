-- ===== src/Planner/Cursor.antt =====
-- The planner's state and methods. The controller enters as the two methods that are called.
use relia_dl.Prelude.{
  ℕ, zero, suc, ◌+◌, ◌-◌, ◌<◌, Bool, Option, none, some, List, [], ◌∷◌, String, min, leb,
  if◌then◌else◌,
}
use relia_dl.Prelude.Int.{ℤ, pos, ltb_ℤ, pos_part, sub_ℕ}
use relia_dl.Prelude.Results.{Result, ok, err, configuration_error, raise_if, ◌>>=◌, ◌>>◌}
use relia_dl.Models.{ChunkSpec, make_chunk_spec}

-- What the planner calls of the BL-DCS controller: a size before there are measurements, and one
-- for a network state. Controllers never answer zero bytes.
pub record Sizer (Snapshot : Type 0) : Type 0 where
  pub default_chunk_size : ℕ
  pub compute_chunk_size : Snapshot → ℕ
  pub default_pos : 0 < default_chunk_size
  pub compute_pos : (s : Snapshot) → 0 < compute_chunk_size s

pub record Planner : Type 0 where
  pub file_size : ℕ
  pub offset : ℕ
  pub index : ℕ

-- The int value, by the parameter that a refusal names.
abbrev refuse : Bool → String → Result (Unit {0})
refuse b name = raise_if b (configuration_error name)

-- DynamicChunkPlanner.__init__
unfoldable pub new_planner : ℤ → ℤ → ℤ → Result Planner
new_planner file_size start_offset start_index = do
  refuse (ltb_ℤ file_size (pos 0)) "file_size"
  refuse (ltb_ℤ start_offset (pos 0)) "start_offset"
  refuse (ltb_ℤ file_size start_offset) "start_offset"
  refuse (ltb_ℤ start_index (pos 0)) "start_index"
  ok (record {
    file_size = pos_part file_size;
    offset = pos_part start_offset;
    index = pos_part start_index;
  })

unfoldable pub remaining_bytes : Planner → ℕ
remaining_bytes p = p.file_size - p.offset

unfoldable pub is_exhausted : Planner → Bool
is_exhausted p = leb p.file_size p.offset

-- The end of next_chunk: the chunk of `taken` bytes at the cursor, and the cursor behind it.
unfoldable pub issue : ℕ → Planner → Result (Option ChunkSpec × Planner)
issue taken p = do
  let last = sub_ℕ (p.offset + taken) 1
  s ← make_chunk_spec (pos p.index) (pos p.offset) last (pos 0) none
  ok (some s, record p { offset = s.end_byte + 1; index = p.index + 1 })

module _ {Snapshot : Type 0} (c : Sizer Snapshot) where
  unfoldable pub size_for : Option Snapshot → ℕ
  size_for none = c.default_chunk_size
  size_for (some s) = c.compute_chunk_size s

  -- DynamicChunkPlanner.next_chunk
  unfoldable pub next_chunk : Option Snapshot → Planner → Result (Option ChunkSpec × Planner)
  unfolding is_exhausted remaining_bytes size_for
  next_chunk state p =
      if is_exhausted p then ok (none, p) else issue (min (size_for state) (remaining_bytes p)) p

  -- The `while True` of plan_all; the fuel bounds its rounds, and `none` means that it ran out.
  unfoldable pub plan_all_loop :
      ℕ → Option Snapshot → Planner → Option (Result (List ChunkSpec × Planner))
  plan_all_loop zero state p = none
  plan_all_loop (suc fuel) state p = elim (next_chunk state p) [
    | err e ↦ some (err e)
    | ok (none, q) ↦ some (ok ([], q))
    | ok (some s, q) ↦ elim (plan_all_loop fuel state q) [
      | none ↦ none
      | some (err e) ↦ some (err e)
      | some (ok (rest, r)) ↦ some (ok (s ∷ rest, r))
    ]
  ]

  -- DynamicChunkPlanner.plan_all: every round but the last takes a byte at least.
  unfoldable pub plan_all : Option Snapshot → Planner → Option (Result (List ChunkSpec × Planner))
  unfolding plan_all_loop remaining_bytes
  plan_all state p = plan_all_loop (remaining_bytes p + 1) state p

-- DynamicChunkPlanner.rewind_to
unfoldable pub rewind_to : ℤ → ℕ → Planner → Result Planner
rewind_to offset index p = do
  refuse (ltb_ℤ offset (pos 0)) "offset"
  refuse (ltb_ℤ (pos p.file_size) offset) "offset"
  refuse (ltb_ℤ (pos p.offset) offset) "offset"
  ok (record p { offset = pos_part offset; index = index })

unfoldable pub reset : Planner → Planner
reset p = record p { offset = 0; index = 0 }

-- The dictionary of to_dict and from_dict; a missing key is `none`.
pub record Saved : Type 0 where
  pub file_size : Option ℤ
  pub next_offset : Option ℤ
  pub next_index : Option ℤ

unfoldable pub to_dict : Planner → Saved
to_dict p = record {
  file_size = some (pos p.file_size);
  next_offset = some (pos p.offset);
  next_index = some (pos p.index);
}

abbrev require : Option ℤ → String → Result ℤ
require none name = err (configuration_error name)
require (some v) name = ok v

-- DynamicChunkPlanner.from_dict
unfoldable pub from_dict : Saved → Result Planner
unfolding new_planner
from_dict d = do
  file_size ← require d.file_size "file_size"
  offset ← require d.next_offset "next_offset"
  index ← require d.next_index "next_index"
  new_planner file_size offset index
