-- ===== src/Planner/Restore.antt =====
-- What the constructor accepts, saving and restoring the cursor, and giving bytes back.
use relia_dl.Prelude.{ℕ, ◌≤◌, ◌<◌, ◌≡◌, ◌⊎◌, inl, inr, Option, arith, dec_lt}
use relia_dl.Prelude.Int.{ℤ, pos, negsuc, ◌≤ℤ◌, pos_part}
use relia_dl.Prelude.Results.{Result, ok, err, Error, configuration_error}
use relia_dl.Planner.Cursor.{Sizer, Planner, new_planner, rewind_to, to_dict, from_dict, plan_all}
use relia_dl.Planner.Steps.{IsInside}
use relia_dl.Planner.Drain.{Drained, plan_all-Drained}

-- Saving a planner and restoring it gives the planner back, if its cursor lies inside the file.
pub from_dict-to_dict : (p : Planner) → IsInside p → from_dict (to_dict p) ≡ ok p
unfolding from_dict to_dict
from_dict-to_dict p v = ground arith

abbrev pub IsRefused : Result Planner → Type 0
IsRefused r = (e : Error) × (r ≡ err e)

-- A planner is made exactly of a size, an offset inside the file and an index that are not
-- negative.
new_planner_outcome :
    (size offset index : ℤ)
    → ((pos 0 ≤ℤ offset)
        × (offset ≤ℤ size)
        × (pos 0 ≤ℤ index)
        × (new_planner size offset index
            ≡ ok (record {
              file_size = pos_part size;
              offset = pos_part offset;
              index = pos_part index;
            })))
      ⊎ ((¬ ((pos 0 ≤ℤ offset) × (offset ≤ℤ size) × (pos 0 ≤ℤ index)))
          × IsRefused (new_planner size offset index))
unfolding new_planner
new_planner_outcome (negsuc s) (negsuc o) i =
    inr ((λ h. omega arith), (configuration_error "file_size", ground arith))
new_planner_outcome (negsuc s) (pos o) i =
    inr ((λ h. omega arith), (configuration_error "file_size", ground arith))
new_planner_outcome (pos s) (negsuc o) i =
    inr ((λ h. omega arith), (configuration_error "start_offset", ground arith))
new_planner_outcome (pos s) (pos o) (negsuc i) = elim (dec_lt s o) [
  | yes past ↦ inr ((λ h. omega arith), (configuration_error "start_offset", ground arith))
  | no inside ↦ inr ((λ h. omega arith), (configuration_error "start_index", ground arith))
]
new_planner_outcome (pos s) (pos o) (pos i) = elim (dec_lt s o) [
  | yes past ↦ inr ((λ h. omega arith), (configuration_error "start_offset", ground arith))
  | no inside ↦ inl (omega arith, omega arith, omega arith, ground arith)
]

module _ {Snapshot : Type 0} (c : Sizer Snapshot) where
  -- Bytes that a caller gives back are planned again: the cursor moves to any offset at or before
  -- it, and draining the planner then partitions everything from there to the end of the file. An
  -- offset beyond the cursor, which would skip bytes, is refused.
  pub rewind_to_outcome :
      (state : Option Snapshot) (p : Planner) (offset index : ℕ)
      → IsInside p
      → let back : Planner = record p { offset = offset; index = index } in
        ((offset ≤ p.offset)
          × (rewind_to (pos offset) index p ≡ ok back)
          × Drained back (plan_all c state back))
        ⊎ ((p.offset < offset)
            × (rewind_to (pos offset) index p ≡ err (configuration_error "offset")))
  unfolding rewind_to
  rewind_to_outcome state p offset index v = elim (dec_lt p.offset offset) [
    | yes ahead ↦ inr (ahead, ground arith)
    | no back ↦ inl (omega arith, ground arith, plan_all-Drained c state _ (omega arith))
  ]
