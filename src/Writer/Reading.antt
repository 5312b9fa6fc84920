-- ===== src/Writer/Reading.antt =====
-- read_at after write_at, with other pieces written in between.
use relia_dl.Prelude.{
  ℕ, suc, ◌+◌, ◌≤◌, ◌<◌, ◌≡◌, ◌⊎◌, inl, inr, refl, ap, ◌∙◌, false, List, [], ◌∷◌, length, take,
  get_elem?, arith, ℕ_discrete, le→ltb_false, ==_true, ==_false, All,
}
use relia_dl.Prelude.Int.{pos}
use relia_dl.Prelude.Results.{Result, ok, err, storage_error}
use relia_dl.Merkle.{Bytes}
use relia_dl.Writer.System.{Answer, Os, Laws, IsPread}
use relia_dl.Writer.Ops.{SparseFileWriter, write_at, read_at, read_result}
use relia_dl.Writer.Loop.{Stored}
use relia_dl.Writer.Calls.{HasRoom, IsKept, Outcome, write_at-Outcome, write_at-Touched}
use relia_dl.Writer.Ranges.{
  Piece, Apart, write_pieces, write_piece-HasRoom, write_pieces-Stored, write_pieces_closed,
}

get_elem?_ext :
    (b d : Bytes)
    → length b ≤ length d
    → ((i : ℕ) → i < length b → get_elem? b i ≡ get_elem? d i)
    → b ≡ take (length b) d
get_elem?_ext [] d h same = refl
get_elem?_ext (x ∷ b) [] h same = absurd (omega arith)
get_elem?_ext (x ∷ b) (y ∷ d) h same =
    let head : x ≡ y = (let first = same 0 (omega arith) in cc) in
    let tail = get_elem?_ext b d (omega arith) (λ i k. same (suc i) (omega arith)) in cc

module _ (os : Os) where
  -- A reading at a place where some bytes are: nothing when there are none; what `pread` gives,
  -- which is the first of the bytes; or StorageError when `pread` fails.
  pub data Reading (off : ℕ) (d : Bytes) (f : os.File) (r : Result Bytes) : Type 0 where
    empty : length d ≡ 0 → r ≡ ok [] → Reading off d f r
    read :
        (b : Bytes)
        → 0 < length d
        → os.pread (length d) off f ≡ Answer.done b
        → r ≡ ok b
        → b ≡ take (length b) d
        → Reading off d f r
    failed :
        0 < length d
        → ((b : Bytes) → ¬ (os.pread (length d) off f ≡ Answer.done b))
        → r ≡ err storage_error
        → Reading off d f r

module _ (os : Os) (laws : Laws os) where
  Answer-cases :
      (a : Answer Bytes)
      → ((b : Bytes) × (a ≡ Answer.done b))
        ⊎ (((b : Bytes) → ¬ (a ≡ Answer.done b)) × (read_result os a ≡ err storage_error))
  Answer-cases (Answer.done b) = inl (b, refl)
  Answer-cases Answer.no_space = inr ((λ b e. cc), refl)
  Answer-cases Answer.denied = inr ((λ b e. cc), refl)
  Answer-cases Answer.refused = inr ((λ b e. cc), refl)

  read_result-Reading :
      (off : ℕ) (d : Bytes) (f : os.File)
      → 0 < length d
      → IsPread os (length d) off f
      → Stored os d off (length d) f
      → Reading os off d f (read_result os (os.pread (length d) off f))
  unfolding Stored
  read_result-Reading off d f some_byte law there =
      elim (Answer-cases (os.pread (length d) off f)) [
        | inl (b, e) ↦ Reading.read b some_byte e (ap (read_result os) e) (
            get_elem?_ext b d (law.pread_count b e) (λ i h.
              let size = law.pread_count b e in law.pread_byte b e i h ∙ there i (omega arith)))
        | inr (none_done, bad) ↦ Reading.failed some_byte none_done bad
      ]

  read_at-Reading :
      (off : ℕ) (d : Bytes) (w : SparseFileWriter os)
      → w.is_closed ≡ false
      → Stored os d off (length d) w.file
      → Reading os off d w.file (read_at os (pos off) (pos (length d)) w)
  unfolding read_at
  read_at-Reading off d w usable there =
      let place = le→ltb_false (off + 0) (0 + 0) (omega arith) in
      let count = le→ltb_false (length d + 0) (0 + 0) (omega arith) in
      elim (ℕ_discrete (length d) 0) [
        | yes no_byte ↦
            rw (usable, place, count, ==_true (length d) 0 no_byte) (Reading.empty no_byte refl)
        | no some_byte ↦
            rw (usable, place, count, ==_false (length d) 0 some_byte)
              (read_result-Reading off d w.file (omega arith) (laws.pread_law (length d) off w.file)
                there)
      ]

  -- When a write returned, then calls for ranges apart from its own, whatever they give, leave what
  -- it wrote: a read of its range asks `pread` for all of it and returns what that gives, which is
  -- the first of the bytes written, or raises StorageError when `pread` fails; of an empty range it
  -- returns nothing. The file has room for what the writer is for.
  pub read_at-write_pieces :
      (off n : ℕ) (d : Bytes) (w : SparseFileWriter os) (ps : List Piece)
      → HasRoom os w
      → (write_at os (pos off) d w).0 ≡ ok n
      → All (Apart off (length d)) ps
      → let v = write_pieces os ps (write_at os (pos off) d w).1 in
        Reading os off d v.file (read_at os (pos off) (pos (length d)) v)
  unfolding IsKept
  read_at-write_pieces off n d w ps room good apart =
      let v = (write_at os (pos off) d w).1 in
      let ready = write_piece-HasRoom os laws (record { offset = pos off; payload = d }) w room in
      elim (write_at-Outcome os laws (pos off) d w room) [
        | inl (_, same) ↦ absurd (cc)
        | inr (_, _, Outcome.failed e io bad) ↦ absurd (cc)
        | inr (_, usable, Outcome.written count there more) ↦
            read_at-Reading off d (write_pieces os ps v)
              (write_pieces_closed os laws ps v ready
                ∙ (write_at-Touched os laws (pos off) d w room).1.2
                ∙ usable)
              (write_pieces-Stored os laws off d v ps ready there apart)
      ]
