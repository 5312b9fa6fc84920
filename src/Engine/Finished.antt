-- ===== src/Engine/Finished.antt =====
-- The body of a response, to its end.
use relia_dl.Prelude.{
  Bool-cases, ℕ, ◌+◌, ◌≤◌, ◌≡◌, inl, inr, refl, sym, ap, ◌∙◌, Bool, true, false, max, [], ◌∷◌, ◌++◌,
  length, ltb, arith,
}
use mathlib.Core.Path.{subst}
use mathlib.Core.List.{append-nil}
use relia_dl.Prelude.Results.{Error, Result, ok, err, network_error}
use relia_dl.Merkle.{Bytes}
use relia_dl.Models.{ChunkState}
use relia_dl.Stream.Segments.{concat}
use relia_dl.Writer.{Os, Laws, SparseFileWriter}
use relia_dl.Writer.Loop.{Stored}
use relia_dl.Writer.Calls.{HasRoom}
use relia_dl.Engine.Body.{Settings, Response, Transfer, finish_body, proceed}
use relia_dl.Engine.Fetch.{receive_body, start_transfer}
use relia_dl.Engine.Writes.{Within, Within-refl}
use relia_dl.Engine.Blocks.{Arrived, Step, write_buffer}
use relia_dl.Engine.Received.{receive_blocks-Step}

zero_of : (n : ℕ) → ltb 0 n ≡ false → n ≡ 0
zero_of n h = ground arith

empty-nil : (b : Bytes) → length b ≡ 0 → b ≡ []
empty-nil [] e = refl
empty-nil (x ∷ b) e = absurd (omega arith)

module _ (os : Os) (laws : Laws os) where
  -- The end of a body: all its bytes are in the file, or an exception.
  pub data Finished (past start : ℕ) (w : SparseFileWriter os) (d : Bytes)
      (r : Result (Unit {0}) × Transfer os) : Type 0 where
    landed :
        r.0 ≡ ok tt
        → Stored os d start (length d) r.1.writer.file
        → r.1.offset ≡ start + length d
        → r.1.hashed ≡ d
        → Within os laws start past w r.1.writer
        → Finished past start w d r
    raised :
        (e : Error)
        → r.0 ≡ err e
        → Within os laws start past w r.1.writer
        → Finished past start w d r

  finish_body-Finished :
      (broken : Bool) (past start : ℕ) (w : SparseFileWriter os) (d : Bytes) (t : Transfer os)
      → Arrived os laws past start w d t
      → Finished past start w d (finish_body os broken t)
  unfolding finish_body
  finish_body-Finished true past start w d t a = Finished.raised network_error refl a.frame
  finish_body-Finished false past start w d t a = elim (Bool-cases (ltb 0 t.buffered)) [
    | inl some_left ↦ elim (write_buffer os laws past start w d t a) [
      | inl (v, run, there, frame) ↦
          rw (some_left, run) (Finished.landed refl there a.at_offset a.in_hash frame)
      | inr (e, v, run, frame) ↦ rw (some_left, run) (Finished.raised e refl frame)
    ]
    | inr none_left ↦
        let empty : length t.buffer ≡ 0 =
          omega (arith, zero_of t.buffered none_left, a.in_buffer) in
        let all : a.flushed ≡ d =
          sym (append-nil a.flushed)
          ∙ ap (λ b. a.flushed ++ b) (sym (empty-nil t.buffer empty))
          ∙ a.split in
        rw none_left (
          Finished.landed refl
            (subst (λ x. Stored os x start (length x) t.writer.file) all a.stored) a.at_offset
            a.in_hash a.frame)
  ]

  proceed-Finished :
      (past start : ℕ) (w : SparseFileWriter os) (d : Bytes) (r : Result (Unit {0}) × Transfer os)
      (next : Transfer os → Result (Unit {0}) × Transfer os)
      → Step os laws past start w d r
      → ((t : Transfer os) → Arrived os laws past start w d t → Finished past start w d (next t))
      → Finished past start w d (proceed os r next)
  proceed-Finished past start w d (ok u, t) next (Step.went good a) k = k t a
  proceed-Finished past start w d (err f, t) next (Step.went good a) k = absurd (cc)
  proceed-Finished past start w d (ok u, t) next (Step.raised f bad frame) k = absurd (cc)
  proceed-Finished past start w d (err g, t) next (Step.raised f bad frame) k =
      Finished.raised g refl frame

  start-Arrived :
      (s : Settings) (resume_at : ℕ) (c : ChunkState) (w : SparseFileWriter os)
      → HasRoom os w
      → c.start_byte + resume_at ≤ c.end_byte + 1
      → Arrived os laws
          (c.end_byte + 1)
          (c.start_byte + resume_at)
          w
          []
          (start_transfer os s resume_at c w)
  unfolding start_transfer Stored
  start-Arrived s resume_at c w room inside = record {
    flushed = [];
    split = refl;
    stored = λ i h. absurd (omega arith);
    at_buffer = omega arith;
    at_offset = omega arith;
    in_range = inside;
    in_hash = refl;
    in_buffer = refl;
    frame = Within-refl os laws (c.start_byte + resume_at) (c.end_byte + 1) w;
    room = room;
  }

  pub receive_body-Finished :
      (s : Settings) (resume_at : ℕ) (c : ChunkState) (r : Response) (w : SparseFileWriter os)
      → HasRoom os w
      → c.start_byte + resume_at ≤ c.end_byte + 1
      → Finished
          (c.end_byte + 1)
          (c.start_byte + resume_at)
          w
          (concat r.blocks)
          (receive_body os s c r (start_transfer os s resume_at c w))
  unfolding receive_body
  receive_body-Finished s resume_at c r w room inside =
      let past = c.end_byte + 1 in
      let start = c.start_byte + resume_at in
      proceed-Finished past start w (concat r.blocks) _ _
        (receive_blocks-Step os laws s (max 4096 s.write_buffer_bytes) c start w r.blocks []
          (start_transfer os s resume_at c w) (start-Arrived s resume_at c w room inside))
        (λ t a. finish_body-Finished r.broken past start w (concat r.blocks) t a)
