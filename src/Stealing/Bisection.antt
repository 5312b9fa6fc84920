-- ===== src/Stealing/Bisection.antt =====
-- RangeBisection, can_bisect and bisect_range. A split floor below 1 is refused whatever it is, so
-- it is a natural here.
use relia_dl.Prelude.{ℕ, ◌+◌, ◌-◌, ◌*◌, ◌/◌, Bool, not, ◌&&◌, Option, none, ltb, leb, ◌==◌}
use relia_dl.Prelude.Int.{pos}
use relia_dl.Prelude.Results.{Result, ok, configuration_error, raise_if, ◌>>=◌, ◌>>◌}
use relia_dl.Prelude.Text.{Text}
use relia_dl.Models.{ChunkSpec, make_chunk_spec}
use relia_dl.Stealing.Reports.{WorkerProgress, bytes_remaining, is_complete}

pub data BisectionTrigger : Type 0 where
  straggler idle_capacity : BisectionTrigger

pub record RangeBisection : Type 0 where
  pub victim_id : Text
  pub thief_id : Option Text
  pub original_start : ℕ
  pub original_end : ℕ
  pub next_byte : ℕ
  pub boundary : ℕ
  pub trigger : BisectionTrigger

-- RangeBisection.__post_init__
unfoldable pub make_bisection : RangeBisection → Result RangeBisection
make_bisection b = do
  raise_if (not (leb b.original_start b.next_byte && leb b.next_byte b.original_end))
      (configuration_error "next_byte")
  raise_if (not (ltb b.next_byte b.boundary && leb b.boundary b.original_end))
      (configuration_error "boundary")
  ok b

unfoldable pub victim_end : RangeBisection → ℕ
victim_end b = b.boundary - 1

unfoldable pub thief_start : RangeBisection → ℕ
thief_start b = b.boundary

unfoldable pub thief_end : RangeBisection → ℕ
thief_end b = b.original_end

unfoldable pub victim_bytes_remaining : RangeBisection → ℕ
victim_bytes_remaining b = victim_end b + 1 - b.next_byte

unfoldable pub thief_bytes : RangeBisection → ℕ
thief_bytes b = thief_end b + 1 - thief_start b

unfoldable pub bytes_bisected : RangeBisection → ℕ
bytes_bisected b = b.original_end + 1 - b.next_byte

-- to_chunk_spec
unfoldable pub to_chunk_spec : RangeBisection → ℕ → Result ChunkSpec
to_chunk_spec b index =
    make_chunk_spec (pos index) (pos (thief_start b)) (pos (thief_end b)) (pos 0) none

unfoldable pub covers_original_range : RangeBisection → Bool
covers_original_range b =
    (victim_end b + 1 == thief_start b)
    && leb b.original_start (victim_end b)
    && (thief_end b == b.original_end)
    && (victim_bytes_remaining b + thief_bytes b == bytes_bisected b)

module _ {F : Type 0} where
  -- The test of can_bisect, for a floor that it accepts.
  unfoldable pub is_wide : ℕ → WorkerProgress F → Bool
  is_wide min_split r = not (is_complete r) && leb (2 * min_split) (bytes_remaining r)

  unfoldable pub can_bisect : ℕ → WorkerProgress F → Result Bool
  can_bisect min_split r = do
    raise_if (ltb min_split 1) (configuration_error "min_split_bytes")
    ok (is_wide min_split r)

  unfoldable pub bisect_range :
      WorkerProgress F → Option Text → ℕ → BisectionTrigger → Result RangeBisection
  bisect_range r thief min_split trigger = do
    fine ← can_bisect min_split r
    raise_if (not fine) (configuration_error "bytes_remaining")
    make_bisection (record {
      victim_id = r.worker_id;
      thief_id = thief;
      original_start = r.range_start;
      original_end = r.range_end;
      next_byte = r.next_byte;
      boundary = r.next_byte + bytes_remaining r / 2;
      trigger = trigger;
    })
