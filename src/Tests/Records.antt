-- ===== src/Tests/Records.antt =====
-- Chunk specifications and chunk states.
use relia_dl.Prelude.{◌≡◌, ◌⊎◌, none}
use relia_dl.Prelude.Int.{pos}
use relia_dl.Prelude.Results.{ok, err, value_error}
use relia_dl.Models.{ChunkState, new_chunk_state, make_chunk_spec}
use relia_dl.Models.Laws.{IsRange, spec_of, make_chunk_spec_outcome}

make_chunk_spec_outcome_example :
    (IsRange (pos 1) (pos 4) (pos 7) (pos 4)
      × (make_chunk_spec (pos 1) (pos 4) (pos 7) (pos 4) none
          ≡ ok (spec_of (pos 1) (pos 4) (pos 7) none)))
    ⊎ ((¬ IsRange (pos 1) (pos 4) (pos 7) (pos 4))
        × (make_chunk_spec (pos 1) (pos 4) (pos 7) (pos 4) none ≡ err value_error))
make_chunk_spec_outcome_example = make_chunk_spec_outcome (pos 1) (pos 4) (pos 7) (pos 4) none

abbrev some_state : ChunkState
some_state = new_chunk_state 1 4 7
