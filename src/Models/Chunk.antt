-- ===== src/Models/Chunk.antt =====
-- reliadl/models.py: ChunkSpec and ChunkState. The constructor's arguments are Python integers;
-- what it accepts is never negative, so the fields are naturals.
use relia_dl.Prelude.{ℕ, ◌+◌, Bool, true, false, Option, none, some, [], ◌∷◌, ◌==◌, if◌then◌else◌}
use relia_dl.Prelude.Int.{ℤ, pos, ◌+ℤ◌, ◌-ℤ◌, ltb_ℤ, pos_part, sub_ℕ}
use relia_dl.Prelude.Results.{Result, ok, value_error, raise_if, ◌>>◌}
use relia_dl.Prelude.Text.{Text, codes, strip, lower, strip_prefix}
use relia_dl.Models.Status.{ChunkStatus}

pub record ChunkSpec : Type 0 where
  pub index : ℕ
  pub start_byte : ℕ
  pub end_byte : ℕ
  pub size : ℕ
  pub expected_hash : Option Text

-- The digest without white space, upper case and its `sha256:` prefix.
unfoldable pub clean_hash : Text → Text
clean_hash h =
    let cleaned = lower (strip h) in
    elim (strip_prefix (codes "sha256:") cleaned) [ none ↦ cleaned | some rest ↦ rest ]

abbrev pub is_zero : ℤ → Bool
is_zero a = if ltb_ℤ a (pos 0) then false else pos_part a == 0

-- ChunkSpec.__post_init__, with the record that it leaves.
unfoldable pub make_chunk_spec : ℤ → ℤ → ℤ → ℤ → Option Text → Result ChunkSpec
make_chunk_spec index start last size hash = do
  raise_if (ltb_ℤ index (pos 0)) value_error
  raise_if (ltb_ℤ start (pos 0)) value_error
  raise_if (ltb_ℤ last start) value_error
  let expected = (last -ℤ start) +ℤ pos 1
  raise_if
      (if is_zero size then false else if ltb_ℤ size expected then true else ltb_ℤ expected size)
      value_error
  ok (record {
    index = pos_part index;
    start_byte = pos_part start;
    end_byte = pos_part last;
    size = pos_part expected;
    expected_hash = elim hash [ none ↦ none | some h ↦ some (clean_hash h) ];
  })

pub record ChunkState : Type 0 where
  pub index : ℕ
  pub start_byte : ℕ
  pub end_byte : ℕ
  pub status : ChunkStatus
  pub retries : ℕ
  pub hash_verified : Bool
  pub expected_hash : Option Text
  pub computed_hash : Option Text
  pub file_path : Option Text
  pub error : Option Text

-- The keyword arguments that callers give; the other fields have their defaults.
unfoldable pub new_chunk_state : ℕ → ℕ → ℕ → ChunkState
new_chunk_state index start last = record {
  index = index;
  start_byte = start;
  end_byte = last;
  status = ChunkStatus.pending;
  retries = 0;
  hash_verified = false;
  expected_hash = none;
  computed_hash = none;
  file_path = none;
  error = none;
}

-- ChunkState.size; negative for a range that ends more than one byte before it starts.
unfoldable pub size : ChunkState → ℤ
size c = sub_ℕ (c.end_byte + 1) c.start_byte

-- ChunkState.spec
unfoldable pub spec : ChunkState → Result ChunkSpec
unfolding size
spec c = make_chunk_spec (pos c.index) (pos c.start_byte) (pos c.end_byte) (size c) c.expected_hash

-- `if text:` on an optional string: neither None nor empty.
abbrev or_keep : Option Text → Option Text → Option Text
or_keep none old = old
or_keep (some []) old = old
or_keep (some (c ∷ t)) old = some (c ∷ t)

unfoldable pub mark_in_progress : ChunkState → ChunkState
mark_in_progress c = record c { status = ChunkStatus.in_progress }

unfoldable pub mark_verifying : ChunkState → ChunkState
mark_verifying c = record c { status = ChunkStatus.verifying }

unfoldable pub mark_complete : Option Text → ChunkState → ChunkState
mark_complete computed c = record c {
  status = ChunkStatus.complete;
  hash_verified = true;
  computed_hash = or_keep computed c.computed_hash;
  error = none;
}

unfoldable pub mark_failed : Option Text → Bool → ChunkState → ChunkState
mark_failed error increment c = record c {
  status = ChunkStatus.failed;
  retries = if increment then c.retries + 1 else c.retries;
  error = or_keep error c.error;
}

unfoldable pub mark_abandoned : Option Text → ChunkState → ChunkState
mark_abandoned error c = record c { status = ChunkStatus.abandoned; error = or_keep error c.error }
