-- ===== src/Stealing/Halves.antt =====
-- Cutting one range: when it succeeds, and what the two halves are.
use relia_dl.Prelude.{
  ℕ, ◌+◌, ◌*◌, ◌/◌, ◌≤◌, ◌<◌, ◌≡◌, ◌⊎◌, inl, inr, refl, true, false, Option, none, arith,
  le→ltb_false,
}
use relia_dl.Prelude.Results.{ok, err, configuration_error}
use relia_dl.Prelude.Text.{Text}
use relia_dl.Models.Laws.{make_chunk_spec_range}
use relia_dl.Stealing.Reports.{WorkerProgress, IsReport, bytes_remaining, is_complete}
use relia_dl.Stealing.Bisection.{
  RangeBisection, BisectionTrigger, bisect_range, can_bisect, is_wide, make_bisection, thief_bytes,
  victim_bytes_remaining, bytes_bisected, covers_original_range, to_chunk_spec, victim_end,
  thief_start, thief_end,
}

-- A cut that the code's own check accepts, whose sides both have the floor's bytes still to fetch,
-- differing by a byte at most, with the thief strictly behind what the victim has received.
pub record IsSplit (min_split : ℕ) (b : RangeBisection) : Type 0 where
  pub covers : covers_original_range b ≡ true
  pub victim_floor : min_split ≤ victim_bytes_remaining b
  pub thief_floor : min_split ≤ thief_bytes b
  pub even :
      (thief_bytes b ≡ victim_bytes_remaining b) ⊎ (thief_bytes b ≡ victim_bytes_remaining b + 1)
  pub fresh : b.next_byte < thief_start b

module _ {F : Type 0} where
  abbrev pub cut_of : WorkerProgress F → Option Text → BisectionTrigger → RangeBisection
  cut_of r thief trigger = record {
    victim_id = r.worker_id;
    thief_id = thief;
    original_start = r.range_start;
    original_end = r.range_end;
    next_byte = r.next_byte;
    boundary = r.next_byte + bytes_remaining r / 2;
    trigger = trigger;
  }

  pub is_wide_iff :
      (min_split : ℕ) (r : WorkerProgress F)
      → 0 < min_split
      → ((is_wide min_split r ≡ true) × (2 * min_split ≤ bytes_remaining r))
        ⊎ ((is_wide min_split r ≡ false) × (bytes_remaining r < 2 * min_split))
  unfolding is_wide is_complete bytes_remaining
  is_wide_iff min_split r p = ground arith

  cut-IsSplit :
      (min_split : ℕ) (r : WorkerProgress F) (thief : Option Text) (trigger : BisectionTrigger)
      → IsReport r
      → 0 < min_split
      → 2 * min_split ≤ bytes_remaining r
      → (make_bisection (cut_of r thief trigger) ≡ ok (cut_of r thief trigger))
        × IsSplit min_split (cut_of r thief trigger)
  unfolding make_bisection bytes_remaining covers_original_range victim_end thief_end thief_start
      thief_bytes victim_bytes_remaining bytes_bisected
  cut-IsSplit min_split r thief trigger v p h = (
    ground (arith, v.begun, v.inside),
    record {
      covers = ground (arith, v.begun, v.inside);
      victim_floor = omega (arith, v.begun, v.inside);
      thief_floor = omega (arith, v.begun, v.inside);
      even = omega (arith, v.begun, v.inside);
      fresh = omega (arith, v.begun, v.inside);
    },
  )

  -- Bisecting a worker's range, with a floor of a byte or more: when what it has left is twice the
  -- floor or more, it is cut into two halves of what is left, which differ by a byte at most, are
  -- no smaller than the floor, and satisfy covers_original_range; with less left it is refused.
  pub bisect_range_outcome :
      (r : WorkerProgress F) (thief : Option Text) (min_split : ℕ) (trigger : BisectionTrigger)
      → IsReport r
      → 0 < min_split
      → ((2 * min_split ≤ bytes_remaining r)
          × (bisect_range r thief min_split trigger ≡ ok (cut_of r thief trigger))
          × IsSplit min_split (cut_of r thief trigger))
        ⊎ ((bytes_remaining r < 2 * min_split)
            × (bisect_range r thief min_split trigger
                ≡ err (configuration_error "bytes_remaining")))
  unfolding bisect_range can_bisect
  bisect_range_outcome r thief min_split trigger v p = elim (is_wide_iff min_split r p) [
    | inl (fine, wide) ↦
        let (made, split) = cut-IsSplit min_split r thief trigger v p wide in
        inl (wide, rw (le→ltb_false min_split 1 p, fine) made, split)
    | inr (bad, short) ↦ inr (short, rw (le→ltb_false min_split 1 p, bad) refl)
  ]

-- The thief's half as a chunk for the engine: exactly its bytes, with no digest.
to_chunk_spec-IsSplit :
    (min_split : ℕ) (b : RangeBisection) (index : ℕ)
    → 0 < min_split
    → IsSplit min_split b
    → to_chunk_spec b index
      ≡ ok (record {
        index = index;
        start_byte = b.boundary;
        end_byte = b.original_end;
        size = thief_bytes b;
        expected_hash = none;
      })
unfolding to_chunk_spec thief_bytes thief_start thief_end
to_chunk_spec-IsSplit min_split b index p s =
    make_chunk_spec_range index b.boundary b.original_end (omega (arith, s.thief_floor))
