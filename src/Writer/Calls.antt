-- ===== src/Writer/Calls.antt =====
-- One call of write_at: its branches, what it writes and what it leaves alone.
use relia_dl.Prelude.{
  Bool-cases, ℕ, ◌+◌, ◌≤◌, ◌<◌, ◌≡◌, ◌⊎◌, inl, inr, refl, ap, true, false, length, arith, dec_lt,
  ℕ_discrete, le→ltb_false, lt→ltb, ==_true, ==_false,
}
use relia_dl.Prelude.Int.{ℤ, pos, ltb_ℤ, pos_part}
use relia_dl.Prelude.Results.{Error, Result, ok, err, storage_error}
use relia_dl.Merkle.{Bytes}
use relia_dl.Writer.System.{Os, Laws}
use relia_dl.Writer.Ops.{SparseFileWriter, write_loop, write_at, count_written}
use relia_dl.Writer.Loop.{IsIo, Stored, Touched, Ended, loop-Ended, loop-Touched}

module _ (os : Os) where
  -- A file as long as the writer says.
  abbrev pub HasRoom : SparseFileWriter os → Type 0
  HasRoom w = w.total_size ≤ os.size w.file

  -- Requests that write_at refuses: closed, before the file, or past its end.
  abbrev pub IsRefused : ℤ → Bytes → SparseFileWriter os → Type 0
  IsRefused off d w =
      (w.is_closed ≡ true)
      ⊎ (ltb_ℤ off (pos 0) ≡ true)
      ⊎ ((0 < length d) × (w.total_size < pos_part off + length d))

  -- What a call of write_at at a place gives.
  pub data Outcome (off : ℕ) (d : Bytes) (w : SparseFileWriter os)
      (r : Result ℕ × SparseFileWriter os) : Type 0 where
    written :
        r.0 ≡ ok (length d)
        → Stored os d off (length d) r.1.file
        → r.1.written_bytes ≡ w.written_bytes + length d
        → Outcome off d w r
    failed : (e : Error) → IsIo e → r.0 ≡ err e → Outcome off d w r

  counted :
      (off : ℕ) (d : Bytes) (w : SparseFileWriter os) (l : Result ℕ × os.File)
      → Ended os d off l
      → Outcome off d w (count_written os w l)
  unfolding Ended
  counted off d w (ok n, f) (inl (all, there)) =
      let count : n ≡ length d = cc in Outcome.written all there (omega (arith, count))
  counted off d w (err e, f) (inl (all, there)) = absurd (cc)
  counted off d w (ok n, f) (inr (e, io, bad)) = absurd (cc)
  counted off d w (err e', f) (inr (e, io, bad)) = Outcome.failed e io bad

  -- The branches of write_at.
  data Branch (off : ℤ) (d : Bytes) (w : SparseFileWriter os) : Type 0 where
    refused : IsRefused off d w → write_at os off d w ≡ (err storage_error, w) → Branch off d w
    nothing :
        w.is_closed ≡ false
        → ltb_ℤ off (pos 0) ≡ false
        → length d ≡ 0
        → write_at os off d w ≡ (ok 0, w)
        → Branch off d w
    run :
        w.is_closed ≡ false
        → ltb_ℤ off (pos 0) ≡ false
        → pos_part off + length d ≤ w.total_size
        → write_at os off d w
          ≡ count_written os w (write_loop os (length d) d (pos_part off) 0 w.file)
        → Branch off d w

  write_at-Branch : (off : ℤ) (d : Bytes) (w : SparseFileWriter os) → Branch off d w
  unfolding write_at
  write_at-Branch off d w = elim (Bool-cases w.is_closed) [
    | inl shut ↦ Branch.refused (inl shut) (rw shut refl)
    | inr usable ↦ elim (Bool-cases (ltb_ℤ off (pos 0))) [
      | inl before ↦ Branch.refused (inr (inl before)) (rw (usable, before) refl)
      | inr placed ↦ elim (ℕ_discrete (length d) 0) [
        | yes empty ↦
            Branch.nothing usable placed empty
              (rw (usable, placed, ==_true (length d) 0 empty) refl)
        | no some_byte ↦
            let tests = ==_false (length d) 0 some_byte in
            elim (dec_lt w.total_size (pos_part off + length d)) [
              | yes past ↦ Branch.refused (inr (inr (omega arith, past))) (
                  rw (usable, placed, tests, lt→ltb w.total_size (pos_part off + length d) past)
                    refl)
              | no inside ↦ Branch.run usable placed (omega arith) (
                  rw
                    (
                      usable,
                      placed,
                      tests,
                      le→ltb_false w.total_size (pos_part off + length d) (omega arith),
                    )
                    refl)
            ]
      ]
    ]
  ]

  -- A request on an open writer, not before the file, and empty or within the total size.
  accepted :
      (off : ℤ) (d : Bytes) (w : SparseFileWriter os)
      → w.is_closed ≡ false
      → ltb_ℤ off (pos 0) ≡ false
      → (length d ≡ 0) ⊎ (pos_part off + length d ≤ w.total_size)
      → ¬ IsRefused off d w
  accepted off d w usable placed fits (inl shut) = absurd (cc)
  accepted off d w usable placed fits (inr (inl before)) = absurd (cc)
  accepted off d w usable placed fits (inr (inr (some_byte, past))) = absurd (omega (arith, fits))

  -- When the file has room for what the writer is for: write_at refuses a request on a closed
  -- writer, before the file, or with bytes past the total size; it raises StorageError then and
  -- changes nothing. For any other request it returns the length of the data, all of it is at its
  -- place and counted, however few bytes the system takes at a time, or it raises StorageError or
  -- DiskFullError.
  pub write_at-Outcome :
      (laws : Laws os) (off : ℤ) (d : Bytes) (w : SparseFileWriter os)
      → HasRoom w
      → (IsRefused off d w × (write_at os off d w ≡ (err storage_error, w)))
        ⊎ ((¬ IsRefused off d w)
            × (w.is_closed ≡ false)
            × Outcome (pos_part off) d w (write_at os off d w))
  unfolding Stored
  write_at-Outcome laws off d w room = elim (write_at-Branch off d w) [
    | refused why same ↦ inl (why, same)
    | nothing usable placed empty same ↦ inr (
      accepted off d w usable placed (inl empty),
      usable,
      rw same (
          Outcome.written (ap ok (omega (arith, empty))) (λ i h. absurd (omega (arith, empty)))
            (omega (arith, empty))),
    )
    | run usable placed inside same ↦ inr (
      accepted off d w usable placed (inr inside),
      usable,
      rw same (
          counted (pos_part off) d w _ (
            loop-Ended os d (pos_part off) laws (length d) 0 w.file (omega arith) (omega arith)
              (omega arith) (λ i h. absurd (omega arith)))),
    )
  ]

  -- What no write changes.
  unfoldable pub IsKept : SparseFileWriter os → SparseFileWriter os → Type 0
  IsKept w v =
      (os.size v.file ≡ os.size w.file)
      × (v.total_size ≡ w.total_size)
      × (v.is_closed ≡ w.is_closed)

  count_written-IsKept :
      (w : SparseFileWriter os) (d : Bytes) (off : ℕ) (l : Result ℕ × os.File)
      → Touched os d off w.file l.1 × (os.size l.1 ≡ os.size w.file)
      → Touched os d off w.file (count_written os w l).1.file × IsKept w (count_written os w l).1
  unfolding IsKept
  count_written-IsKept w d off (ok n, f) h = (h.0, (h.1, refl, refl))
  count_written-IsKept w d off (err e, f) h = (h.0, (h.1, refl, refl))

  -- Whatever a call gives, no byte outside its range is another, and none in it is neither old nor
  -- new.
  pub write_at-Touched :
      (laws : Laws os) (off : ℤ) (d : Bytes) (w : SparseFileWriter os)
      → HasRoom w
      → Touched os d (pos_part off) w.file (write_at os off d w).1.file
        × IsKept w (write_at os off d w).1
  unfolding Touched IsKept
  write_at-Touched laws off d w room = elim (write_at-Branch off d w) [
    | refused why same ↦ rw same ((λ j. inl refl), (refl, refl, refl))
    | nothing usable placed empty same ↦ rw same ((λ j. inl refl), (refl, refl, refl))
    | run usable placed inside same ↦ rw same (
        count_written-IsKept w d (pos_part off) _
          (loop-Touched os d (pos_part off) laws (length d) 0 w.file (omega arith) (omega arith)))
  ]
