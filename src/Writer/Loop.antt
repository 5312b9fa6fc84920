-- ===== src/Writer/Loop.antt =====
-- The loop over os.pwrite: it ends, it writes all or raises, and it touches no other byte.
use relia_dl.Prelude.{
  ℕ, zero, suc, ◌+◌, ◌-◌, ◌≤◌, ◌<◌, ◌≡◌, ◌⊎◌, inl, inr, refl, ap, ◌∙◌, length, drop, get_elem?,
  arith, dec_lt, le→leb, lt→leb_false, length-drop, get_elem?-drop,
}
use relia_dl.Prelude.Results.{Error, Result, ok, err, storage_error, disk_full}
use relia_dl.Merkle.{Bytes}
use relia_dl.Writer.System.{Answer, Os, Laws, IsPwrite}
use relia_dl.Writer.Ops.{write_loop}

-- The exceptions that an OSError of a write is turned into.
pub data IsIo : Error → Type 0 where
  plain : IsIo storage_error
  full : IsIo disk_full

module _ (os : Os) where
  -- The bytes of a range that are there already.
  unfoldable pub Stored : Bytes → ℕ → ℕ → os.File → Type 0
  Stored d off n f = (i : ℕ) → i < n → os.byte f (off + i) ≡ get_elem? d i

  -- A byte is the old one, or the one that was given for its place.
  unfoldable pub Touched : Bytes → ℕ → os.File → os.File → Type 0
  Touched d off f g =
      (j : ℕ)
      → (os.byte g j ≡ os.byte f j)
        ⊎ ((off ≤ j) × (j < off + length d) × (os.byte g j ≡ get_elem? d (j - off)))

  module _ (d : Bytes) (off : ℕ) where
    loop_zero : (written : ℕ) (f : os.File) → write_loop os 0 d off written f ≡ (ok written, f)
    unfolding write_loop
    loop_zero written f = refl

    loop_done :
        (n written : ℕ) (f : os.File)
        → length d ≤ written
        → write_loop os n d off written f ≡ (ok written, f)
    unfolding write_loop
    loop_done zero written f h = refl
    loop_done (suc n) written f h = rw (le→leb (length d) written h) refl

    -- A round: the loop raises, or goes on with the bytes that are left.
    Round : ℕ → ℕ → os.File → Type 0
    Round n written f =
        let call = os.pwrite (drop written d) (off + written) f in
        ((e : Error) × IsIo e × (write_loop os (suc n) d off written f ≡ (err e, call.1)))
        ⊎ ((k : ℕ) × (call.0 ≡ Answer.done (suc k))
            × (write_loop os (suc n) d off written f
                ≡ write_loop os n d off (written + suc k) call.1))

    Answer-cases :
        (a : Answer ℕ)
        → (a ≡ Answer.done zero)
          ⊎ ((k : ℕ) × (a ≡ Answer.done (suc k)))
          ⊎ (a ≡ Answer.no_space)
          ⊎ (a ≡ Answer.denied)
          ⊎ (a ≡ Answer.refused)
    Answer-cases (Answer.done zero) = inl refl
    Answer-cases (Answer.done (suc k)) = inr (inl (k, refl))
    Answer-cases Answer.no_space = inr (inr (inl refl))
    Answer-cases Answer.denied = inr (inr (inr (inl refl)))
    Answer-cases Answer.refused = inr (inr (inr (inr refl)))

    loop-Round : (n written : ℕ) (f : os.File) → written < length d → Round n written f
    unfolding write_loop Round
    loop-Round n written f h =
        let more = lt→leb_false (length d) written h in
        elim (Answer-cases (os.pwrite (drop written d) (off + written) f).0) [
          | inl e ↦ inl (storage_error, IsIo.plain, rw (more, e) refl)
          | inr (inl (k, e)) ↦ inr (k, e, rw (more, e) refl)
          | inr (inr (inl e)) ↦ inl (disk_full, IsIo.full, rw (more, e) refl)
          | inr (inr (inr (inl e))) ↦ inl (storage_error, IsIo.plain, rw (more, e) refl)
          | inr (inr (inr (inr e))) ↦ inl (storage_error, IsIo.plain, rw (more, e) refl)
        ]

    -- All is written, or an exception is raised.
    unfoldable pub Ended : Result ℕ × os.File → Type 0
    Ended r =
        ((r.0 ≡ ok (length d)) × Stored d off (length d) r.1)
        ⊎ ((e : Error) × IsIo e × (r.0 ≡ err e))

    module _ (laws : Laws os) where
      -- The call of a round is inside the file.
      call-IsPwrite :
          (written : ℕ) (f : os.File)
          → written ≤ length d
          → off + length d ≤ os.size f
          → IsPwrite os (drop written d) (off + written) f
      call-IsPwrite written f h room =
          laws.pwrite_law (drop written d) (off + written) f (omega (arith, length-drop written d))

      round-Stored :
          (written k : ℕ) (f : os.File)
          → IsPwrite os (drop written d) (off + written) f
          → (os.pwrite (drop written d) (off + written) f).0 ≡ Answer.done k
          → Stored d off written f
          → Stored d off (written + k) (os.pwrite (drop written d) (off + written) f).1
      unfolding Stored
      round-Stored written k f law e there i h = elim (dec_lt i written) [
        | yes before ↦ elim (law.pwrite_byte (off + i)) [
          | inl same ↦ same ∙ there i before
          | inr (low, _, _) ↦ absurd (omega arith)
        ]
        | no after ↦
            let place : off + i ≡ off + written + (i - written) = omega arith in
            let here : written + (i - written) ≡ i = omega arith in
            ap (os.byte (os.pwrite (drop written d) (off + written) f).1) place
            ∙ law.pwrite_written k e (i - written) (omega arith)
            ∙ get_elem?-drop written (i - written) d
            ∙ ap (get_elem? d) here
      ]

      Ended-done :
          (n written : ℕ) (f : os.File)
          → written ≡ length d
          → Stored d off written f
          → Ended (write_loop os n d off written f)
      unfolding Ended
      Ended-done n written f all there =
          rw (loop_done n written f (omega arith)) (inl (ap ok all, rw all at there))

      pub loop-Ended :
          (n written : ℕ) (f : os.File)
          → written ≤ length d
          → length d ≤ n + written
          → off + length d ≤ os.size f
          → Stored d off written f
          → Ended (write_loop os n d off written f)
      unfolding Ended Round
      loop-Ended zero written f h enough room there = Ended-done zero written f (omega arith) there
      loop-Ended (suc n) written f h enough room there = elim (dec_lt written (length d)) [
        | no all ↦ Ended-done (suc n) written f (omega arith) there
        | yes more ↦
            let law = call-IsPwrite written f h room in
            elim (loop-Round n written f more) [
              | inl (e, io, run) ↦ rw run (inr (e, io, refl))
              | inr (k, e, run) ↦
                  let count = law.pwrite_count (suc k) e in
                  rw run (
                    loop-Ended n (written + suc k) (os.pwrite (drop written d) (off + written) f).1
                      (omega (arith, length-drop written d)) (omega arith) (rw law.pwrite_size room)
                      (round-Stored written (suc k) f law e there))
            ]
      ]

      Touched-refl : (f : os.File) → Touched d off f f
      unfolding Touched
      Touched-refl f j = inl refl

      Touched-trans : (f g h : os.File) → Touched d off f g → Touched d off g h → Touched d off f h
      unfolding Touched
      Touched-trans f g h a b j = elim (b j) [
        | inr new ↦ inr new
        | inl old ↦ elim (a j) [
          | inl older ↦ inl (old ∙ older)
          | inr (low, high, new) ↦ inr (low, high, old ∙ new)
        ]
      ]

      round-Touched :
          (written : ℕ) (f : os.File)
          → written ≤ length d
          → IsPwrite os (drop written d) (off + written) f
          → Touched d off f (os.pwrite (drop written d) (off + written) f).1
      unfolding Touched
      round-Touched written f h law j = elim (law.pwrite_byte j) [
        | inl same ↦ inl same
        | inr (low, high, new) ↦ inr (
          omega arith,
          omega (arith, length-drop written d),
          new
              ∙ get_elem?-drop written (j - (off + written)) d
              ∙ ap (get_elem? d) {y = j - off} (omega arith),
        )
      ]

      -- Whether it raises or not.
      pub loop-Touched :
          (n written : ℕ) (f : os.File)
          → written ≤ length d
          → off + length d ≤ os.size f
          → Touched d off f (write_loop os n d off written f).1
            × (os.size (write_loop os n d off written f).1 ≡ os.size f)
      unfolding Round
      loop-Touched zero written f h room = rw (loop_zero written f) (Touched-refl f, refl)
      loop-Touched (suc n) written f h room = elim (dec_lt written (length d)) [
        | no all ↦ rw (loop_done (suc n) written f (omega arith)) (Touched-refl f, refl)
        | yes more ↦
            let law = call-IsPwrite written f h room in
            let g = (os.pwrite (drop written d) (off + written) f).1 in
            elim (loop-Round n written f more) [
              | inl (e, io, run) ↦ rw run (round-Touched written f h law, law.pwrite_size)
              | inr (k, e, run) ↦
                  let count = law.pwrite_count (suc k) e in
                  let rest =
                    loop-Touched n (written + suc k) g (omega (arith, length-drop written d))
                      (rw law.pwrite_size room) in
                  rw run (
                    Touched-trans f g _ (round-Touched written f h law) rest.0,
                    rest.1 ∙ law.pwrite_size,
                  )
            ]
      ]
