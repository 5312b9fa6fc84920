-- ===== src/Engine/Writes.antt =====
-- What a call of write_at does to the bytes of a range and to the others.
use relia_dl.Prelude.{ℕ, ◌+◌, ◌≤◌, ◌<◌, ◌≡◌, ◌⊎◌, inl, inr, refl, ap, ◌∙◌, length, arith}
use relia_dl.Prelude.Int.{pos}
use relia_dl.Prelude.Results.{Error, Result, ok, err, storage_error}
use relia_dl.Merkle.{Bytes}
use relia_dl.Writer.{Os, Laws, SparseFileWriter, write_at}
use relia_dl.Writer.Loop.{Stored, Touched}
use relia_dl.Writer.Calls.{HasRoom, IsKept, Outcome, write_at-Outcome, write_at-Touched}
use relia_dl.Engine.Body.{Transfer, after_write, write_out}

module _ (os : Os) (laws : Laws os) where
  -- From one writer to a later one, only bytes of a range have changed.
  pub record Within (first past : ℕ) (w v : SparseFileWriter os) : Type 0 where
    pub outside : (j : ℕ) → (j < first) ⊎ (past ≤ j) → os.byte v.file j ≡ os.byte w.file j
    pub same_room : IsKept os w v

  pub Within-refl : (first past : ℕ) (w : SparseFileWriter os) → Within first past w w
  unfolding IsKept
  Within-refl first past w = record { outside = λ j h. refl; same_room = (refl, refl, refl) }

  pub Within-trans :
      (first past : ℕ) (u v w : SparseFileWriter os)
      → Within first past u v
      → Within first past v w
      → Within first past u w
  unfolding IsKept
  Within-trans first past u v w a b = record {
    outside = λ j h. b.outside j h ∙ a.outside j h;
    same_room = (
      b.same_room.0 ∙ a.same_room.0,
      b.same_room.1 ∙ a.same_room.1,
      b.same_room.2 ∙ a.same_room.2,
    );
  }

  pub Within-HasRoom :
      (first past : ℕ) (w v : SparseFileWriter os)
      → Within first past w v
      → HasRoom os w
      → HasRoom os v
  unfolding IsKept
  Within-HasRoom first past w v h room = omega (arith, h.same_room.0, h.same_room.1)

  write_at-Within :
      (first past start : ℕ) (d : Bytes) (w : SparseFileWriter os)
      → HasRoom os w
      → first ≤ start
      → start + length d ≤ past
      → Within first past w (write_at os (pos start) d w).1
  unfolding Touched
  write_at-Within first past start d w room low high = record {
    outside = λ j h. elim ((write_at-Touched os laws (pos start) d w room).0 j) [
      | inl same ↦ same
      | inr (a, b, _) ↦ elim h [
        | inl before ↦ absurd (omega arith)
        | inr after ↦ absurd (omega arith)
      ]
    ];
    same_room = (write_at-Touched os laws (pos start) d w room).1;
  }

  pub Within-widen :
      (first past start stop : ℕ) (w v : SparseFileWriter os)
      → first ≤ start
      → stop ≤ past
      → Within start stop w v
      → Within first past w v
  Within-widen first past start stop w v low high h = record {
    outside = λ j k.
        h.outside j (elim k [ inl before ↦ inl (omega arith) | inr after ↦ inr (omega arith) ]);
    same_room = h.same_room;
  }

  -- What a write of some bytes leaves.
  pub data Wrote (start : ℕ) (d : Bytes) (t : Transfer os) (r : Result (Unit {0}) × Transfer os)
      : Type 0 where
    wrote :
        (w : SparseFileWriter os)
        → r ≡ (ok tt, record t { writer = w })
        → Stored os d start (length d) w.file
        → Within start (start + length d) t.writer w
        → Wrote start d t r
    stopped :
        (e : Error) (w : SparseFileWriter os)
        → r ≡ (err e, record t { writer = w })
        → Within start (start + length d) t.writer w
        → Wrote start d t r

  after_write-Wrote :
      (start : ℕ) (d : Bytes) (t : Transfer os) (x : Result ℕ × SparseFileWriter os)
      → ((x.0 ≡ err storage_error) ⊎ Outcome os start d t.writer x)
      → Within start (start + length d) t.writer x.1
      → Wrote start d t (after_write os t x)
  after_write-Wrote start d t (err e, w) h frame = Wrote.stopped e w refl frame
  after_write-Wrote start d t (ok n, w) (inl bad) frame = absurd (cc)
  after_write-Wrote start d t (ok n, w) (inr (Outcome.failed e io bad)) frame = absurd (cc)
  after_write-Wrote start d t (ok n, w) (inr (Outcome.written count there more)) frame =
      Wrote.wrote w refl there frame

  pub write_out-Wrote :
      (start : ℕ) (d : Bytes) (t : Transfer os)
      → HasRoom os t.writer
      → Wrote start d t (write_out os start d t)
  unfolding write_out
  write_out-Wrote start d t room =
      after_write-Wrote start d t (write_at os (pos start) d t.writer)
        (elim (write_at-Outcome os laws (pos start) d t.writer room) [
          | inl (_, e) ↦ inl (ap (λ r. r.0) e)
          | inr (_, _, o) ↦ inr o
        ])
        (write_at-Within start (start + length d) start d t.writer room (omega arith) (omega arith))
