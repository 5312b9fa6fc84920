-- ===== src/Engine/Blocks.antt =====
-- The blocks of a body: what has arrived is in the file up to the buffer, and nothing is written
-- outside the chunk's range.
use mathlib.Core.Path.{subst}
use mathlib.Core.List.{append_assoc, append-nil}
use relia_dl.Prelude.{
  Bool-cases, ℕ, ◌+◌, ◌-◌, ◌≤◌, ◌≡◌, ◌⊎◌, inl, inr, refl, sym, ap, ◌∙◌, Option, ◌++◌, length, leb,
  arith, dec_lt, length-append, get_elem?-append_left, get_elem?-append_right,
}
use relia_dl.Prelude.Results.{Error, Result, ok, err}
use relia_dl.Merkle.{Bytes}
use relia_dl.Stream.{SubBlockStreamValidator}
use relia_dl.Writer.{Os, Laws, SparseFileWriter}
use relia_dl.Writer.Loop.{Stored}
use relia_dl.Writer.Calls.{HasRoom, IsKept}
use relia_dl.Engine.Body.{Transfer, write_out, emptied, accept}
use relia_dl.Engine.Writes.{
  Within, Within-trans, Within-HasRoom, Within-widen, Wrote, write_out-Wrote,
}

module _ (os : Os) (laws : Laws os) where
  -- A transfer of a range into a writer, of which the bytes `d` have arrived: those before the
  -- buffer are in the file, and only bytes of the range have changed.
  pub record Arrived (past start : ℕ) (w : SparseFileWriter os) (d : Bytes) (t : Transfer os)
      : Type 0 where
    pub flushed : Bytes
    pub split : flushed ++ t.buffer ≡ d
    pub stored : Stored os flushed start (length flushed) t.writer.file
    pub at_buffer : t.buffer_start ≡ start + length flushed
    pub at_offset : t.offset ≡ start + length d
    pub in_range : t.offset ≤ past
    pub in_hash : t.hashed ≡ d
    pub in_buffer : t.buffered ≡ length t.buffer
    pub frame : Within os laws start past w t.writer
    pub room : HasRoom os t.writer

  -- A step: the bytes that have arrived, or an exception.
  pub data Step (past start : ℕ) (w : SparseFileWriter os) (d : Bytes)
      (r : Result (Unit {0}) × Transfer os) : Type 0 where
    went : r.0 ≡ ok tt → Arrived past start w d r.1 → Step past start w d r
    raised :
        (e : Error) → r.0 ≡ err e → Within os laws start past w r.1.writer → Step past start w d r

  Stored-append :
      (a b : Bytes) (start : ℕ) (f : os.File)
      → Stored os a start (length a) f
      → Stored os b (start + length a) (length b) f
      → Stored os (a ++ b) start (length (a ++ b)) f
  unfolding Stored
  Stored-append a b start f ha hb i h = elim (dec_lt i (length a)) [
    | yes low ↦ ha i low ∙ sym (get_elem?-append_left a b i low)
    | no high ↦
        ap (os.byte f) {x = start + i} {y = start + length a + (i - length a)} (omega arith)
        ∙ hb (i - length a) (omega (arith, length-append a b))
        ∙ sym (get_elem?-append_right a b i (omega arith))
  ]

  Stored-Within :
      (a : Bytes) (start stop past : ℕ) (w v : SparseFileWriter os)
      → start + length a ≤ stop
      → Within os laws stop past w v
      → Stored os a start (length a) w.file
      → Stored os a start (length a) v.file
  unfolding Stored
  Stored-Within a start stop past w v before h there i k =
      h.outside (start + i) (inl (omega arith)) ∙ there i k

  -- A write of the buffer from its place: all that has arrived is in the file.
  pub write_buffer :
      (past start : ℕ) (w : SparseFileWriter os) (d : Bytes) (t : Transfer os)
      → Arrived past start w d t
      → ((v : SparseFileWriter os) × (write_out os t.buffer_start t.buffer t
            ≡ (ok tt, record t { writer = v }))
          × Stored os d start (length d) v.file
          × Within os laws start past w v)
        ⊎ ((e : Error) × (v : SparseFileWriter os) × (write_out os t.buffer_start t.buffer t
              ≡ (err e, record t { writer = v }))
            × Within os laws start past w v)
  write_buffer past start w d t a =
      let sizes = length-append a.flushed t.buffer in
      let whole = ap length a.split in
      let grown =
        λ (v : SparseFileWriter os)
            (h : Within os laws t.buffer_start (t.buffer_start + length t.buffer) t.writer v).
          Within-trans os laws start past w t.writer v a.frame (
            Within-widen os laws start past t.buffer_start (t.buffer_start + length t.buffer)
              t.writer v (omega (arith, a.at_buffer))
              (omega (arith, a.at_buffer, a.at_offset, a.in_range, sizes, whole)) h) in
      elim (write_out-Wrote os laws t.buffer_start t.buffer t a.room) [
        | Wrote.wrote v run there h ↦ inl (
          v,
          run,
          subst (λ x. Stored os x start (length x) v.file) a.split
              (Stored-append a.flushed t.buffer start v.file
                (Stored-Within a.flushed start t.buffer_start (t.buffer_start + length t.buffer)
                  t.writer v (omega (arith, a.at_buffer)) h a.stored)
                (subst (λ (k : ℕ). Stored os t.buffer k (length t.buffer) v.file) a.at_buffer
                  there)),
          grown v h,
        )
        | Wrote.stopped e v run h ↦ inr (e, v, run, grown v h)
      ]

  pub first-HasRoom :
      (past start : ℕ) (w : SparseFileWriter os) (d : Bytes) (t : Transfer os)
      → Arrived past start w d t
      → HasRoom os w
  unfolding IsKept
  first-HasRoom past start w d t a = omega (arith, a.room, a.frame.same_room.0, a.frame.same_room.1)

  -- The buffer is written and emptied.
  flush-Step :
      (past start : ℕ) (w : SparseFileWriter os) (d : Bytes) (t : Transfer os)
      → Arrived past start w d t
      → Step past start w d (emptied os (write_out os t.buffer_start t.buffer t))
  flush-Step past start w d t a = elim (write_buffer past start w d t a) [
    | inr (e, v, run, frame) ↦ rw run (Step.raised e refl frame)
    | inl (v, run, there, frame) ↦ rw run (
        Step.went refl (record {
          flushed = d;
          split = append-nil d;
          stored = there;
          at_buffer = a.at_offset;
          at_offset = a.at_offset;
          in_range = a.in_range;
          in_hash = a.in_hash;
          in_buffer = refl;
          frame = frame;
          room = Within-HasRoom os laws start past w v frame (first-HasRoom past start w d t a);
        }))
  ]

  -- A transfer with a block more in its buffer.
  abbrev grown : Bytes → Option SubBlockStreamValidator → Transfer os → Transfer os
  grown bytes v t = record t {
    hashed = t.hashed ++ bytes;
    validator = v;
    buffer = t.buffer ++ bytes;
    buffered = t.buffered + length bytes;
    offset = t.offset + length bytes;
  }

  grown-Arrived :
      (past start : ℕ) (w : SparseFileWriter os) (d bytes : Bytes) (t : Transfer os)
      (v : Option SubBlockStreamValidator)
      → Arrived past start w d t
      → t.offset + length bytes ≤ past
      → Arrived past start w (d ++ bytes) (grown bytes v t)
  grown-Arrived past start w d bytes t v a inside = record {
    flushed = a.flushed;
    split = sym (append_assoc a.flushed t.buffer bytes) ∙ ap (λ x. x ++ bytes) a.split;
    stored = a.stored;
    at_buffer = a.at_buffer;
    at_offset = omega (arith, a.at_offset, length-append d bytes);
    in_range = inside;
    in_hash = ap (λ x. x ++ bytes) a.in_hash;
    in_buffer = omega (arith, a.in_buffer, length-append t.buffer bytes);
    frame = a.frame;
    room = a.room;
  }

  pub accept-Step :
      (past start threshold : ℕ) (w : SparseFileWriter os) (d bytes : Bytes) (t : Transfer os)
      (v : Option SubBlockStreamValidator)
      → Arrived past start w d t
      → t.offset + length bytes ≤ past
      → Step past start w
          (d ++ bytes)
          (accept os threshold bytes (record t { hashed = t.hashed ++ bytes; validator = v }))
  unfolding accept
  accept-Step past start threshold w d bytes t v a inside =
      let u = grown bytes v t in
      let more = grown-Arrived past start w d bytes t v a inside in
      elim (Bool-cases (leb threshold u.buffered)) [
        | inl full ↦ rw full (flush-Step past start w (d ++ bytes) u more)
        | inr part ↦ rw part (Step.went refl more)
      ]
