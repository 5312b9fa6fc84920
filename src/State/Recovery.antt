-- ===== src/State/Recovery.antt =====
-- A load after a save that returned, and a crash during the save that a recovery makes.
use relia_dl.Prelude.{
  ◌≡◌, inl, inr, refl, ap, ◌∙◌, Bool, true, false, ◌&&◌, Option, none, some, List, [], ◌∷◌, ◌++◌,
  Any, Option-cases, Bool-cases,
}
use relia_dl.Prelude.Results.{Result, ok, err, storage_error, state_corrupted}
use relia_dl.Merkle.{Bytes}
use relia_dl.State.Store.{
  Slot, is_file, Disk, Codec, Calls, save, swap_in, rotate, install, clean_up, writing, load_file,
  load,
}
use relia_dl.State.Loading.{ReadsBack, load_file-written, load-read, is_file-corrupted}

Any-later : {A : Type 0} (P : A → Type 0) (xs ys : List A) → Any P ys → Any P (xs ++ ys)
Any-later P [] ys h = h
Any-later P (x ∷ xs) ys h = inr (Any-later P xs ys h)

module _ {S : Type 0} (codec : Codec S) where
  install_ok :
      (replace : Bool) (in_place : Option Slot) (bs : Bytes) (d : Disk)
      → let k = install replace in_place bs d in k.outcome ≡ ok tt → k.now.primary ≡ Slot.holds bs
  install_ok true in_place bs d e = refl
  install_ok false none bs d e = refl
  install_ok false (some left) bs d e = absurd (cc)

  saved-primary :
      (backup : Bool) (calls : Calls) (s : S) (d : Disk)
      → (save codec backup calls s d).result ≡ ok tt
      → (save codec backup calls s d).after.primary ≡ Slot.holds (codec.to_bytes s)
  unfolding save swap_in
  saved-primary backup calls s d good = elim (Option-cases calls.write_tmp) [
    | inr (left, e) ↦
        let bad : ◌≡◌ {A = Result (Unit {0})} (err storage_error) (ok tt) = rw e at good in
        absurd (cc)
    | inl e ↦
        let ready = record d { tmp = Slot.holds (codec.to_bytes s) } in
        rw e (
          install_ok calls.replace calls.in_place (codec.to_bytes s)
            (rotate backup calls.copy ready).now (rw e at good))
  ]

  -- When save returns, then load gives the state that was saved, from the disk that save left, and
  -- leaves that disk, whatever was on it before and whatever else the calls did. JSON reads this
  -- state back.
  pub load-save :
      (auto backup backup_again : Bool) (calls again : Calls) (s : S) (d : Disk)
      → ReadsBack codec s
      → (save codec backup calls s d).result ≡ ok tt
      → let after = (save codec backup calls s d).after in
        load codec auto backup_again again after ≡ (ok s, after)
  load-save auto backup backup_again calls again s d law good =
      load-read codec auto backup_again again (save codec backup calls s d).after s
        (ap (load_file codec) (saved-primary backup calls s d good) ∙ load_file-written codec s law)

  -- The same corrupted bytes in the state file and in the backup.
  load-lost :
      (auto backup : Bool) (calls : Calls) (d : Disk)
      → load_file codec d.primary ≡ err state_corrupted
      → load_file codec d.bak ≡ err state_corrupted
      → (load codec auto backup calls d).0 ≡ err state_corrupted
  unfolding load
  load-lost auto backup calls d bad worse = elim (Bool-cases (auto && is_file d.bak)) [
    | inl both ↦ rw (is_file-corrupted codec d.primary bad, bad, both, worse) refl
    | inr neither ↦ rw (is_file-corrupted codec d.primary bad, bad, neither) refl
  ]

  rotate-lost :
      (outcome : Option Slot) (d : Disk) (junk : Bytes)
      → outcome ≡ none
      → d.primary ≡ Slot.holds junk
      → let k = rotate true outcome d in
        (k.now.primary ≡ Slot.holds junk) × (k.now.bak ≡ Slot.holds junk)
  rotate-lost outcome d junk copy there = rw (copy, there) (refl, refl)

  -- When the state file is corrupted, save first copies it over the backup: a crash right after the
  -- copy leaves a disk on which load raises StateCorruptedError, whatever the backup held before.
  pub save-torn :
      (auto backup_again : Bool) (calls again : Calls) (s : S) (d : Disk) (junk : Bytes)
      → calls.write_tmp ≡ none
      → calls.copy ≡ none
      → d.primary ≡ Slot.holds junk
      → load_file codec (Slot.holds junk) ≡ err state_corrupted
      → Any
          (λ e. (load codec auto backup_again again e).0 ≡ err state_corrupted)
          (save codec true calls s d).crashes
  unfolding save swap_in
  save-torn auto backup_again calls again s d junk write copy there bad =
      let bs = codec.to_bytes s in
      let ready = record d { tmp = Slot.holds bs } in
      let kept = rotate true calls.copy ready in
      let put = install calls.replace calls.in_place bs kept.now in
      let P : Disk → Type 0 = λ e. (load codec auto backup_again again e).0 ≡ err state_corrupted in
      let (primary, bak) = rotate-lost calls.copy ready junk copy there in
      let lost : P kept.now =
        load-lost auto backup_again again kept.now (ap (load_file codec) primary ∙ bad)
          (ap (load_file codec) bak ∙ bad) in
      rw write (
        inr (
          Any-later P (writing (λ t. record d { tmp = t }) bs) (swap_in true calls bs ready).crashes
            (inr (
              Any-later P kept.torn
                (kept.now ∷ (put.torn ++ (put.now ∷ clean_up calls.unlink put.now ∷ [])))
                (inl lost)))))
