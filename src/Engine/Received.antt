-- ===== src/Engine/Received.antt =====
-- The loop over the blocks of a body.
use mathlib.Core.List.{append_assoc, append-nil}
use relia_dl.Prelude.{
  ℕ, ◌+◌, ◌≤◌, ◌≡◌, refl, ap, false, Option, none, some, List, [], ◌∷◌, ◌++◌, length, arith, dec_lt,
  length-append, lt→ltb, le→ltb_false,
}
use relia_dl.Prelude.Results.{Error, Result, ok, err, http_error, sub_block_corrupted}
use relia_dl.Merkle.{Bytes}
use relia_dl.Models.{ChunkState}
use relia_dl.Stream.{SubBlockStreamValidator, update}
use relia_dl.Stream.Segments.{concat}
use relia_dl.Writer.{Os, Laws, SparseFileWriter}
use relia_dl.Engine.Body.{
  Settings, Transfer, write_out, still_corrupted, validated, checked, receive_block, proceed,
  receive_blocks,
}
use relia_dl.Engine.Writes.{Within, Within-trans, Within-widen, Wrote, write_out-Wrote}
use relia_dl.Engine.Blocks.{Arrived, Step, accept-Step}

module _ (os : Os) (laws : Laws os) (s : Settings) (threshold : ℕ) where
  -- A bad sub-block: what is in hand is written inside the range, and the exception is raised.
  corrupted-Step :
      (past start : ℕ) (w : SparseFileWriter os) (d bytes : Bytes) (t : Transfer os) (e : Error)
      → Arrived os laws past start w d t
      → t.offset + length bytes ≤ past
      → Step os laws past start w (d ++ bytes) (
          still_corrupted os e (
            write_out os t.buffer_start
              (t.buffer ++ bytes)
              (record t { hashed = t.hashed ++ bytes })))
  corrupted-Step past start w d bytes t e a inside =
      let u = record t { hashed = t.hashed ++ bytes } in
      let all = t.buffer ++ bytes in
      let stop = t.buffer_start + length all in
      let sizes = length-append a.flushed t.buffer in
      let whole = ap length a.split in
      let more = length-append t.buffer bytes in
      let framed = λ (v : SparseFileWriter os) (h : Within os laws t.buffer_start stop t.writer v).
        Within-trans os laws start past w t.writer v a.frame (
          Within-widen os laws start past t.buffer_start stop t.writer v
            (omega (arith, a.at_buffer))
            (omega (arith, a.at_buffer, a.at_offset, inside, sizes, whole, more)) h) in
      elim (write_out-Wrote os laws t.buffer_start all u a.room) [
        | Wrote.wrote v run there h ↦ rw run (Step.raised e refl (framed v h))
        | Wrote.stopped f v run h ↦ rw run (Step.raised f refl (framed v h))
      ]

  validated-Step :
      (past start : ℕ) (w : SparseFileWriter os) (d bytes : Bytes) (t : Transfer os)
      (r : Result (ℕ × SubBlockStreamValidator))
      → Arrived os laws past start w d t
      → t.offset + length bytes ≤ past
      → Step os laws past start w
          (d ++ bytes)
          (validated os threshold bytes (record t { hashed = t.hashed ++ bytes }) r)
  validated-Step past start w d bytes t (ok r) a inside =
      accept-Step os laws past start threshold w d bytes t (some r.1) a inside
  validated-Step past start w d bytes t (err (sub_block_corrupted k)) a inside =
      corrupted-Step past start w d bytes t (sub_block_corrupted k) a inside
  validated-Step past start w d bytes t (err e) a inside = Step.raised e refl a.frame

  checked-Step :
      (past start : ℕ) (w : SparseFileWriter os) (d bytes : Bytes) (t : Transfer os)
      (v : Option SubBlockStreamValidator)
      → t.validator ≡ v
      → Arrived os laws past start w d t
      → t.offset + length bytes ≤ past
      → Step os laws past start w
          (d ++ bytes)
          (checked os s threshold bytes (record t { hashed = t.hashed ++ bytes }) v)
  checked-Step past start w d bytes t none e a inside =
      accept-Step os laws past start threshold w d bytes t t.validator a inside
  checked-Step past start w d bytes t (some v) e a inside =
      validated-Step past start w d bytes t (update s.sha256 bytes v) a inside

  receive_block-Step :
      (c : ChunkState) (start : ℕ) (w : SparseFileWriter os) (d bytes : Bytes) (t : Transfer os)
      → Arrived os laws (c.end_byte + 1) start w d t
      → Step os laws (c.end_byte + 1) start w (d ++ bytes) (receive_block os s threshold c bytes t)
  unfolding receive_block
  receive_block-Step c start w d bytes t a =
      elim (dec_lt (c.end_byte + 1) (t.offset + length bytes)) [
        | yes over ↦
            rw (lt→ltb (c.end_byte + 1) (t.offset + length bytes) over)
              (Step.raised (http_error false) refl a.frame)
        | no inside ↦
            rw (le→ltb_false (c.end_byte + 1) (t.offset + length bytes) (omega arith))
              (checked-Step (c.end_byte + 1) start w d bytes t t.validator refl a (omega arith))
      ]

  proceed-Step :
      (past start : ℕ) (w : SparseFileWriter os) (d e : Bytes) (r : Result (Unit {0}) × Transfer os)
      (next : Transfer os → Result (Unit {0}) × Transfer os)
      → Step os laws past start w d r
      → ((t : Transfer os)
          → Arrived os laws past start w d t
          → Step os laws past start w e (next t))
      → Step os laws past start w e (proceed os r next)
  proceed-Step past start w d e (ok u, t) next (Step.went good a) k = k t a
  proceed-Step past start w d e (err f, t) next (Step.went good a) k = absurd (cc)
  proceed-Step past start w d e (ok u, t) next (Step.raised f bad frame) k = absurd (cc)
  proceed-Step past start w d e (err g, t) next (Step.raised f bad frame) k =
      Step.raised g refl frame

  pub receive_blocks-Step :
      (c : ChunkState) (start : ℕ) (w : SparseFileWriter os) (bs : List Bytes) (d : Bytes)
      (t : Transfer os)
      → Arrived os laws (c.end_byte + 1) start w d t
      → Step os laws
          (c.end_byte + 1)
          start
          w
          (d ++ concat bs)
          (receive_blocks os s threshold c bs t)
  unfolding receive_blocks
  receive_blocks-Step c start w [] d t a = rw (append-nil d) (Step.went refl a)
  receive_blocks-Step c start w (b ∷ bs) d t a = rw⁻¹ (append_assoc d b (concat bs)) (
      proceed-Step (c.end_byte + 1) start w (d ++ b) ((d ++ b) ++ concat bs) _ _
        (receive_block-Step c start w d b t a)
        (λ u h. receive_blocks-Step c start w bs (d ++ b) u h))
