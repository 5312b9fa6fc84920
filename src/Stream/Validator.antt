-- ===== src/Stream/Validator.antt =====
-- SubBlockStreamValidator. What an exception leaves behind in the validator is left out.
use relia_dl.Prelude.{
  ℕ, zero, suc, ◌+◌, ◌-◌, Bool, true, false, not, Option, none, some, List, [], ◌∷◌, ◌++◌, length,
  take, drop, get_or, ltb, leb, if◌then◌else◌,
}
use relia_dl.Prelude.Results.{
  Result, ok, value_error, sub_block_corrupted, chunk_hash_mismatch, raise_if, ◌>>=◌, ◌>>◌,
}
use relia_dl.Prelude.Text.{Text, text_eq, strip, lower}
use relia_dl.Merkle.{Bytes, to_hex}

pub record SubBlockStreamValidator : Type 0 where
  pub expected_sub_blocks : List Text
  pub sub_block_size : ℕ
  pub expected_chunk_hash : Option Text
  pub buffer : Bytes
  pub current_sub_block_idx : ℕ
  pub total_bytes_processed : ℕ
  pub verified_sub_blocks : ℕ
  pub hashed : Bytes
  pub is_finalized : Bool

abbrev cleaned : List Text → List Text
cleaned [] = []
cleaned (t ∷ ts) = lower (strip t) ∷ cleaned ts

abbrev cleaned_hash : Option Text → Option Text
cleaned_hash none = none
cleaned_hash (some []) = none
cleaned_hash (some (c ∷ t)) = some (lower (strip (c ∷ t)))

-- SubBlockStreamValidator.__init__
unfoldable pub new_validator : List Text → ℕ → Option Text → SubBlockStreamValidator
new_validator blocks size hash = record {
  expected_sub_blocks = cleaned blocks;
  sub_block_size = size;
  expected_chunk_hash = cleaned_hash hash;
  buffer = [];
  current_sub_block_idx = 0;
  total_bytes_processed = 0;
  verified_sub_blocks = 0;
  hashed = [];
  is_finalized = false;
}

-- The bytes that a call of update takes in.
unfoldable pub extend : Bytes → SubBlockStreamValidator → SubBlockStreamValidator
extend more v = record v {
  buffer = v.buffer ++ more;
  hashed = v.hashed ++ more;
  total_bytes_processed = v.total_bytes_processed + length more;
}

module _ (sha256 : Bytes → Bytes) where
  -- A block against the next expected digest, with `rest` left in the buffer. Expected digests are
  -- ASCII text: on other text, compare_digest raises TypeError.
  unfoldable pub check_block :
      Bytes → Bytes → SubBlockStreamValidator → Result SubBlockStreamValidator
  check_block block rest v = do
    raise_if (leb (length v.expected_sub_blocks) v.current_sub_block_idx)
        (sub_block_corrupted v.current_sub_block_idx)
    raise_if
        (not (
          text_eq (to_hex (sha256 block))
            (get_or v.expected_sub_blocks v.current_sub_block_idx [])))
        (sub_block_corrupted v.current_sub_block_idx)
    ok (record v {
      buffer = rest;
      current_sub_block_idx = v.current_sub_block_idx + 1;
      verified_sub_blocks = v.verified_sub_blocks + 1;
    })

  -- The `while` loop of update, on fuel; every round shortens the buffer.
  unfoldable pub check_blocks : ℕ → SubBlockStreamValidator → Result SubBlockStreamValidator
  check_blocks zero v = ok v
  check_blocks (suc fuel) v =
      let size = v.sub_block_size in
      let next = check_block (take size v.buffer) (drop size v.buffer) v >>= check_blocks fuel in
      if leb size (length v.buffer) then next else ok v

  -- update, with the validator that it leaves and the number it returns.
  unfoldable pub update : Bytes → SubBlockStreamValidator → Result (ℕ × SubBlockStreamValidator)
  update [] v = raise_if v.is_finalized value_error >> ok (0, v)
  update (b ∷ bs) v =
      raise_if v.is_finalized value_error
      >> (check_blocks (length (extend (b ∷ bs) v).buffer) (extend (b ∷ bs) v) >>= λ w.
          ok (w.verified_sub_blocks - v.verified_sub_blocks, w))

  unfoldable pub check_trailing : SubBlockStreamValidator → Result SubBlockStreamValidator
  check_trailing v = if ltb 0 (length v.buffer) then check_block v.buffer [] v else ok v

  unfoldable pub check_chunk : SubBlockStreamValidator → Result (Unit {0})
  check_chunk v = elim v.expected_chunk_hash [
    | none ↦ ok tt
    | some t ↦ raise_if (not (text_eq (to_hex (sha256 v.hashed)) t)) chunk_hash_mismatch
  ]

  -- finalize, which returns True unless it raises.
  unfoldable pub finalize : SubBlockStreamValidator → Result SubBlockStreamValidator
  finalize v =
      if v.is_finalized
      then ok v
      else (check_trailing v >>= λ w. check_chunk w >> ok (record w { is_finalized = true }))

  -- Several calls of update.
  unfoldable pub feed : List Bytes → SubBlockStreamValidator → Result SubBlockStreamValidator
  feed [] v = ok v
  feed (p ∷ ps) v = update p v >>= λ r. feed ps r.1
