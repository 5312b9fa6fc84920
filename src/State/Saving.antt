-- ===== src/State/Saving.antt =====
-- One save, a crash at any point of it, and the load after it.
use relia_dl.Prelude.{
  ℕ, ◌≡◌, ◌⊎◌, inl, inr, refl, ap, ◌∙◌, Bool, true, false, Option, none, some, List, [], ◌∷◌, ◌++◌,
  map, All, All-append, Option-cases,
}
use relia_dl.Prelude.Results.{ok, err, state_corrupted}
use relia_dl.Merkle.{Bytes}
use relia_dl.State.Store.{
  Slot, Disk, Codec, Calls, save, swap_in, rotate, install, clean_up, prefixes, writing, copied,
  load_file, load,
}
use relia_dl.State.Loading.{
  IsCodec, IsSound, load_file-written, load_file-torn, load-read, load-recovered,
}

All-map :
    {A B : Type 0} (P : B → Type 0) (f : A → B) (xs : List A)
    → All (λ x. P (f x)) xs
    → All P (map f xs)
All-map P f [] a = tt
All-map P f (x ∷ xs) a = (a.0, All-map P f xs a.1)

-- What holds of the whole and of each beginning holds of all prefixes.
All-prefixes :
    (P : Bytes → Type 0) (bs : Bytes)
    → P bs
    → ((p q : Bytes) (b : ℕ) → bs ≡ p ++ b ∷ q → P p)
    → All P (prefixes bs)
All-prefixes P [] whole start = (whole, tt)
All-prefixes P (b ∷ bs) whole start = (
  start [] bs b refl,
  All-map P (λ p. b ∷ p) (prefixes bs)
      (All-prefixes (λ p. P (b ∷ p)) bs whole (λ p q c e. start (b ∷ p) q c (ap (λ l. b ∷ l) e))),
)

module _ {S : Type 0} (codec : Codec S) (law : IsCodec codec) (old new : S) where
  -- A load after a crash gives the old state or the new one.
  unfoldable pub Survives : Disk → Type 0
  Survives d =
      (backup : Bool) (calls : Calls)
      → IsSound calls
      → ((load codec true backup calls d).0 ≡ ok old)
        ⊎ ((load codec true backup calls d).0 ≡ ok new)

  Survives-old : (d : Disk) → load_file codec d.primary ≡ ok old → Survives d
  unfolding Survives
  Survives-old d e backup calls sound =
      inl (ap (λ r. r.0) (load-read codec true backup calls d old e))

  Survives-new : (d : Disk) → load_file codec d.primary ≡ ok new → Survives d
  unfolding Survives
  Survives-new d e backup calls sound =
      inr (ap (λ r. r.0) (load-read codec true backup calls d new e))

  Survives-backup :
      (d : Disk)
      → load_file codec d.primary ≡ err state_corrupted
      → load_file codec d.bak ≡ ok old
      → Survives d
  unfolding Survives
  Survives-backup d bad good backup calls sound =
      inl (load-recovered codec backup calls d old sound bad good)

  -- While a file is written that is neither of the two.
  writing-old :
      (place : Slot → Disk) (bs : Bytes)
      → ((s : Slot) → load_file codec (place s).primary ≡ ok old)
      → All Survives (writing place bs)
  writing-old place bs same =
      All-map Survives (λ p. place (Slot.holds p)) (prefixes bs)
        (All-prefixes (λ p. Survives (place (Slot.holds p))) bs
          (Survives-old (place (Slot.holds bs)) (same (Slot.holds bs)))
          (λ p q b e. Survives-old (place (Slot.holds p)) (same (Slot.holds p))))

  -- While the new state is written in place, with the old one in the backup.
  writing-new :
      (d : Disk)
      → load_file codec d.bak ≡ ok old
      → All Survives (writing (λ s. record d { primary = s }) (codec.to_bytes new))
  writing-new d good =
      let place : Slot → Disk = λ s. record d { primary = s } in
      All-map Survives (λ p. place (Slot.holds p)) (prefixes (codec.to_bytes new))
        (All-prefixes (λ p. Survives (place (Slot.holds p))) (codec.to_bytes new)
          (Survives-new (place (Slot.holds (codec.to_bytes new)))
            (load_file-written codec new (law.reads_back new)))
          (λ p q b e.
            Survives-backup (place (Slot.holds p)) (load_file-torn codec law new p q b e) good))

  -- The conditions: the rename is made, or else the backup is complete and so is the write in
  -- place.
  pub data Guarded (backup : Bool) (calls : Calls) : Type 0 where
    renamed : calls.replace ≡ true → Guarded backup calls
    backed_up :
        backup ≡ true
        → calls.copy ≡ none
        → calls.replace ≡ false
        → calls.in_place ≡ none
        → Guarded backup calls

  -- The backup leaves the state file, and holds its state when the copy is complete.
  copied-old :
      (outcome : Option Slot) (x : Slot) (d : Disk)
      → d.primary ≡ x
      → load_file codec x ≡ ok old
      → let k = copied outcome x d in
        All Survives k.torn
        × (load_file codec k.now.primary ≡ ok old)
        × (outcome ≡ none → load_file codec k.now.bak ≡ ok old)
  unfolding load_file
  copied-old outcome Slot.absent d same good = absurd (cc)
  copied-old outcome Slot.unreadable d same good = absurd (cc)
  copied-old none (Slot.holds bs) d same good =
      let there : load_file codec d.primary ≡ ok old = ap (load_file codec) same ∙ good in
      (writing-old (λ s. record d { bak = s }) bs (λ s. there), there, λ e. good)
  copied-old (some left) (Slot.holds bs) d same good =
      let there : load_file codec d.primary ≡ ok old = ap (load_file codec) same ∙ good in
      (tt, there, λ e. absurd (cc))

  rotate-old :
      (backup : Bool) (outcome : Option Slot) (d : Disk)
      → load_file codec d.primary ≡ ok old
      → let k = rotate backup outcome d in
        All Survives k.torn
        × (load_file codec k.now.primary ≡ ok old)
        × (backup ≡ true → outcome ≡ none → load_file codec k.now.bak ≡ ok old)
  rotate-old true outcome d good =
      let (a, b, c) = copied-old outcome d.primary d refl good in (a, b, λ e f. c f)
  rotate-old false outcome d good = (tt, good, λ e f. absurd (cc))

  -- The new state in the state file, and the disks on the way.
  install-new :
      (backup : Bool) (calls : Calls) (d : Disk)
      → Guarded backup calls
      → (backup ≡ true → calls.copy ≡ none → load_file codec d.bak ≡ ok old)
      → let k = install calls.replace calls.in_place (codec.to_bytes new) d in
        All Survives k.torn × (load_file codec k.now.primary ≡ ok new)
  install-new backup calls d (Guarded.renamed e) kept =
      rw e (tt, load_file-written codec new (law.reads_back new))
  install-new backup calls d (Guarded.backed_up b c r i) kept =
      rw (r, i) (writing-new d (kept b c), load_file-written codec new (law.reads_back new))

  swap_in-Survives :
      (backup : Bool) (calls : Calls) (d : Disk)
      → Guarded backup calls
      → load_file codec d.primary ≡ ok old
      → All Survives (swap_in backup calls (codec.to_bytes new) d).crashes
  unfolding swap_in
  swap_in-Survives backup calls d guard good =
      let kept = rotate backup calls.copy d in
      let put = install calls.replace calls.in_place (codec.to_bytes new) kept.now in
      let (torn, still, saved) = rotate-old backup calls.copy d good in
      let (later, done) = install-new backup calls kept.now guard saved in
      let ending = put.now ∷ clean_up calls.unlink put.now ∷ [] in
      let last : Survives put.now × (Survives (clean_up calls.unlink put.now) × Unit {0}) =
        (Survives-new put.now done, (Survives-new (clean_up calls.unlink put.now) done, tt)) in
      (
        Survives-old d good,
        All-append Survives kept.torn (kept.now ∷ (put.torn ++ ending)) torn
            (Survives-old kept.now still, All-append Survives put.torn ending later last),
      )

  -- When a state file gives the old state, then whatever the calls of a save of the new state do,
  -- on each disk that a crash during the save may leave, a later load gives the old state or the
  -- new one. The rename succeeds, or else the backup was copied completely and the write in place
  -- is. JSON reads back what it wrote and rejects a beginning of it, and in the load's own save the
  -- write of the temporary file and the rename succeed.
  pub save-Survives :
      (backup : Bool) (calls : Calls) (d : Disk)
      → Guarded backup calls
      → load_file codec d.primary ≡ ok old
      → All Survives (save codec backup calls new d).crashes
  unfolding save swap_in
  save-Survives backup calls d guard good = elim (Option-cases calls.write_tmp) [
    | inr (left, e) ↦
        let failed = record d { tmp = left } in
        rw e (
          Survives-old d good,
          (Survives-old failed good, (Survives-old (clean_up calls.unlink failed) good, tt)),
        )
    | inl e ↦
        let bs = codec.to_bytes new in
        let ready = record d { tmp = Slot.holds bs } in
        rw e (
          Survives-old d good,
          All-append Survives (writing (λ t. record d { tmp = t }) bs)
              (swap_in backup calls bs ready).crashes
              (writing-old (λ t. record d { tmp = t }) bs (λ t. good))
              (swap_in-Survives backup calls ready guard good),
        )
  ]
