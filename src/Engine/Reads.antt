-- ===== src/Engine/Reads.antt =====
-- The loops that read a chunk back: more fuel than bytes changes nothing.
use relia_dl.Prelude.{
  ℕ, zero, suc, ◌+◌, ◌-◌, ◌≤◌, ◌≡◌, refl, ap, min, [], ◌++◌, ltb, arith, le→ltb_false,
  if◌then◌else◌,
}
use relia_dl.Prelude.Int.{pos}
use relia_dl.Prelude.Results.{Result, ok, ◌>>=◌}
use relia_dl.Merkle.{Bytes}
use relia_dl.Writer.{Os, SparseFileWriter, read_at}
use relia_dl.Engine.Body.{revalidate_read_size, read_back}
use relia_dl.Engine.Resume.{range_reads}

module _ (os : Os) (w : SparseFileWriter os) where
  -- One read, and what the others give.
  joined : ℕ → ℕ → Result Bytes → Result Bytes
  joined offset span rest =
      read_at os (pos offset) (pos span) w >>= λ b. rest >>= λ bs. ok (b ++ bs)

  -- The reads of a revalidation do not depend on their fuel, once it is the length of the range.
  pub range_reads_enough :
      (n m offset past : ℕ)
      → past ≤ n + offset
      → past ≤ m + offset
      → range_reads os n offset past w ≡ range_reads os m offset past w
  unfolding range_reads joined
  range_reads_enough zero zero offset past h k = refl
  range_reads_enough zero (suc m) offset past h k = rw (le→ltb_false offset past (omega arith)) refl
  range_reads_enough (suc n) zero offset past h k = rw (le→ltb_false offset past (omega arith)) refl
  range_reads_enough (suc n) (suc m) offset past h k =
      ap
        (λ r.
          if ltb offset past
          then joined offset (min revalidate_read_size (past - offset)) r
          else ok [])
        (range_reads_enough n m (offset + revalidate_read_size) past (omega arith) (omega arith))

  -- The reads of a chunk's digest do not depend on their fuel, once it is the bytes that remain.
  pub read_back_enough :
      (n m remaining offset : ℕ)
      → remaining ≤ n
      → remaining ≤ m
      → read_back os n remaining offset w ≡ read_back os m remaining offset w
  unfolding read_back joined
  read_back_enough zero zero remaining offset h k = refl
  read_back_enough zero (suc m) remaining offset h k =
      rw (le→ltb_false 0 remaining (omega arith)) refl
  read_back_enough (suc n) zero remaining offset h k =
      rw (le→ltb_false 0 remaining (omega arith)) refl
  read_back_enough (suc n) (suc m) remaining offset h k =
      let span = min revalidate_read_size remaining in
      ap (λ r. if ltb 0 remaining then joined offset span r else ok [])
        (read_back_enough n m (remaining - span) (offset + span) (omega arith) (omega arith))
