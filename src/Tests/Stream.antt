-- ===== src/Tests/Stream.antt =====
-- A validator with sub-blocks of two bytes, fed five bytes in three calls.
use relia_dl.Prelude.{◌≡◌, refl, false, none, [], ◌∷◌, arith}
use relia_dl.Stream.{SubBlockStreamValidator, feed}
use relia_dl.Stream.Segments.{concat, feed-concat}
use relia_dl.Tests.Merkle.{checksum}

abbrev waiting : SubBlockStreamValidator
waiting = record {
  expected_sub_blocks = [];
  sub_block_size = 2;
  expected_chunk_hash = none;
  buffer = [];
  current_sub_block_idx = 0;
  total_bytes_processed = 0;
  verified_sub_blocks = 0;
  hashed = [];
  is_finalized = false;
}

feed-concat_example :
    feed checksum ((1 ∷ []) ∷ [] ∷ (2 ∷ 3 ∷ 4 ∷ 5 ∷ []) ∷ []) waiting
    ≡ feed checksum (concat ((1 ∷ []) ∷ [] ∷ (2 ∷ 3 ∷ 4 ∷ 5 ∷ []) ∷ []) ∷ []) waiting
feed-concat_example =
    feed-concat checksum ((1 ∷ []) ∷ [] ∷ (2 ∷ 3 ∷ 4 ∷ 5 ∷ []) ∷ []) waiting (omega arith) refl
