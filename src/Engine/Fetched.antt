-- ===== src/Engine/Fetched.antt =====
-- What _fetch_chunk gives and leaves.
use relia_dl.Prelude.{
  ℕ, ◌+◌, ◌-◌, ◌≤◌, ◌≡◌, inl, inr, refl, sym, ap, ◌∙◌, Bool, true, false, not, Option, length, ◌==◌,
  arith, if◌then◌else◌,
}
use relia_dl.Prelude.Results.{
  Error, Result, ok, err, bind_ok, then_ok, Result-cases, raise_if_ok, raise_if, network_error,
  chunk_hash_mismatch, ◌>>◌,
}
use relia_dl.Prelude.Text.{Text}
use relia_dl.Models.{ChunkState, size}
use relia_dl.Stream.Segments.{concat}
use relia_dl.Writer.{Os, Laws, SparseFileWriter}
use relia_dl.Writer.Loop.{Stored}
use relia_dl.Writer.Calls.{HasRoom}
use relia_dl.Engine.Body.{Settings, Exchange, Response, Transfer, equals, digest_chunk_from_disk}
use relia_dl.Engine.Fetch.{is_other, resume_of, conclude, concluded, check_response, fetch_chunk}
use relia_dl.Engine.Writes.{Within, Within-refl, Within-widen}
use relia_dl.Engine.Finished.{Finished, receive_body-Finished}

not-false : (b : Bool) → not b ≡ false → b ≡ true
not-false true e = refl
not-false false e = absurd (cc)

module _ (os : Os) (laws : Laws os) where
  -- What a request gives: the digest of a body that is in the file at its place, or an exception;
  -- in both cases no byte outside the chunk has changed.
  pub data Fetched (s : Settings) (resume_at : ℕ) (c : ChunkState) (x : Exchange)
      (w : SparseFileWriter os) (r : Result Text × SparseFileWriter os) : Type 0 where
    fetched :
        (answer : Response) (digest : Text)
        → x ≡ Exchange.answered answer
        → r.0 ≡ ok digest
        → Stored os
            (concat answer.blocks)
            (c.start_byte + resume_at)
            (length (concat answer.blocks))
            r.1.file
        → equals (size c) (resume_at + length (concat answer.blocks)) ≡ true
        → (if resume_at == 0
            then ok (s.hexdigest (concat answer.blocks))
            else digest_chunk_from_disk os s c r.1)
          ≡ ok digest
        → is_other c.expected_hash digest ≡ false
        → Within os laws c.start_byte (c.end_byte + 1) w r.1
        → Fetched s resume_at c x w r
    failed :
        (e : Error)
        → r.0 ≡ err e
        → Within os laws c.start_byte (c.end_byte + 1) w r.1
        → Fetched s resume_at c x w r

  -- The checks after the body, when they pass.
  conclude_ok :
      (s : Settings) (resume_at : ℕ) (c : ChunkState) (t : Transfer os) (digest : Text)
      → conclude os s resume_at c t ≡ ok digest
      → (equals (size c) (t.offset - c.start_byte) ≡ true)
        × ((if resume_at == 0
              then ok (s.hexdigest t.hashed)
              else digest_chunk_from_disk os s c t.writer)
            ≡ ok digest)
        × (is_other c.expected_hash digest ≡ false)
  unfolding conclude
  conclude_ok s resume_at c t digest e =
      let (sized, later) = then_ok _ _ digest e in
      let (valid, last) = then_ok _ _ digest later in
      let (d, hashed, compared) =
        bind_ok
          (if resume_at == 0
            then ok (s.hexdigest t.hashed)
            else digest_chunk_from_disk os s c t.writer)
          (λ h. raise_if (is_other c.expected_hash h) chunk_hash_mismatch >> ok h) digest last in
      let (same, done) =
        then_ok (raise_if (is_other c.expected_hash d) chunk_hash_mismatch) (ok d) digest
          compared in
      let it : d ≡ digest = cc in
      (
        not-false (equals (size c) (t.offset - c.start_byte)) (raise_if_ok _ network_error sized),
        hashed ∙ ap ok it,
        ap (is_other c.expected_hash) (sym it) ∙ raise_if_ok _ chunk_hash_mismatch same,
      )

  wider :
      (c : ChunkState) (resume_at : ℕ) (w v : SparseFileWriter os)
      → Within os laws (c.start_byte + resume_at) (c.end_byte + 1) w v
      → Within os laws c.start_byte (c.end_byte + 1) w v
  wider c resume_at w v h =
      Within-widen os laws c.start_byte (c.end_byte + 1) (c.start_byte + resume_at) (c.end_byte + 1)
        w v (omega arith) (omega arith) h

  concluded-Fetched :
      (s : Settings) (resume_at : ℕ) (c : ChunkState) (answer : Response) (w : SparseFileWriter os)
      (x : Result (Unit {0}) × Transfer os)
      → Finished os laws (c.end_byte + 1) (c.start_byte + resume_at) w (concat answer.blocks) x
      → Fetched s resume_at c (Exchange.answered answer) w (concluded os s resume_at c x)
  concluded-Fetched s resume_at c answer w (err f, t)
        (Finished.landed good there at_offset in_hash frame) =
      absurd (cc)
  concluded-Fetched s resume_at c answer w (ok u, t) (Finished.raised e bad frame) = absurd (cc)
  concluded-Fetched s resume_at c answer w (err f, t) (Finished.raised e bad frame) =
      Fetched.failed f refl (wider c resume_at w t.writer frame)
  concluded-Fetched s resume_at c answer w (ok u, t)
        (Finished.landed good there at_offset in_hash frame) =
      elim (Result-cases (conclude os s resume_at c t)) [
        | inr (e, bad) ↦ Fetched.failed e bad (wider c resume_at w t.writer frame)
        | inl (digest, run) ↦
            let (sized, hashed, same) = conclude_ok s resume_at c t digest run in
            let body = concat answer.blocks in
            let count : t.offset - c.start_byte ≡ resume_at + length body =
              omega (arith, at_offset) in
            Fetched.fetched answer digest refl run there (ap (equals (size c)) (sym count) ∙ sized)
              (ap
                  (λ b.
                    if resume_at == 0
                    then ok (s.hexdigest b)
                    else digest_chunk_from_disk os s c t.writer)
                  (sym in_hash)
                ∙ hashed)
              same (wider c resume_at w t.writer frame)
      ]

  -- A request for a chunk, from its first byte or from the end of its verified prefix: whatever the
  -- server sends, in whatever blocks, and whatever writes succeed, it raises or gives a digest.
  -- When it gives one, the joined blocks of a response are in the file where they belong and end
  -- with the chunk's last byte, the digest is theirs (or that of the chunk as read back from the
  -- file, after a verified prefix), and it is the expected one if there is one. In both cases no
  -- byte outside the chunk's range has changed. The file has room for what the writer is for, and
  -- the prefix is no longer than the chunk.
  pub fetch_chunk-Fetched :
      (s : Settings) (prefix : Option ℕ) (c : ChunkState) (x : Exchange) (w : SparseFileWriter os)
      → HasRoom os w
      → c.start_byte + resume_of prefix ≤ c.end_byte + 1
      → Fetched s (resume_of prefix) c x w (fetch_chunk os s prefix c x w)
  unfolding fetch_chunk
  fetch_chunk-Fetched s prefix c Exchange.unreachable w room inside =
      Fetched.failed network_error refl (Within-refl os laws c.start_byte (c.end_byte + 1) w)
  fetch_chunk-Fetched s prefix c (Exchange.answered r) w room inside =
      elim (Result-cases (check_response s c (c.start_byte + resume_of prefix) r)) [
        | inl (u, good) ↦ rw good (
            concluded-Fetched s (resume_of prefix) c r w _
              (receive_body-Finished os laws s (resume_of prefix) c r w room inside))
        | inr (e, bad) ↦
            rw bad (Fetched.failed e refl (Within-refl os laws c.start_byte (c.end_byte + 1) w))
      ]

  pub Fetched-Within :
      (s : Settings) (n : ℕ) (c : ChunkState) (x : Exchange) (w : SparseFileWriter os)
      (r : Result Text × SparseFileWriter os)
      → Fetched s n c x w r
      → Within os laws c.start_byte (c.end_byte + 1) w r.1
  Fetched-Within s n c x w r (Fetched.fetched a d e f g h i j frame) = frame
  Fetched-Within s n c x w r (Fetched.failed e f frame) = frame
