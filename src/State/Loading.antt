-- ===== src/State/Loading.antt =====
-- What load gives, by what the state file and its backup hold.
use relia_dl.Prelude.{ℕ, ◌≡◌, ◌⊎◌, inl, inr, refl, Bool, true, none, some, [], ◌∷◌, ◌++◌}
use relia_dl.Prelude.Results.{ok, err, value_error, state_corrupted}
use relia_dl.Prelude.Text.{Text, strip}
use relia_dl.Merkle.{Bytes}
use relia_dl.State.Store.{Slot, is_file, Disk, Codec, Calls, save, swap_in, load_file, parse, load}

-- A state that was written is read back.
abbrev pub ReadsBack : {S : Type 0} → Codec S → S → Type 0
ReadsBack codec s =
    (t rest : Text) × (c : ℕ) × (codec.decode (codec.to_bytes s) ≡ some t)
    × (strip t ≡ c ∷ rest)
    × (codec.from_json (c ∷ rest) ≡ ok s)

-- What the code relies on of JSON: a state that was written is read back, and a beginning of its
-- text is no JSON.
pub record IsCodec {S : Type 0} (codec : Codec S) : Type 0 where
  pub reads_back : (s : S) → ReadsBack codec s
  pub torn :
      (s : S) (p q : Bytes) (b : ℕ)
      → codec.to_bytes s ≡ p ++ b ∷ q
      → (t : Text) × (codec.decode p ≡ some t)
        × ((strip t ≡ []) ⊎ (codec.from_json (strip t) ≡ err value_error))

-- Calls of a save of which the write of the temporary file and the rename succeed.
pub record IsSound (calls : Calls) : Type 0 where
  pub sound_write : calls.write_tmp ≡ none
  pub sound_replace : calls.replace ≡ true

module _ {S : Type 0} (codec : Codec S) where
  pub load_file-written :
      (s : S) → ReadsBack codec s → load_file codec (Slot.holds (codec.to_bytes s)) ≡ ok s
  unfolding load_file
  load_file-written s (t, rest, c, read, text, json) = rw (read, text, json) refl

  parse_rejected :
      (t : Text) → codec.from_json t ≡ err value_error → parse codec t ≡ err state_corrupted
  parse_rejected [] e = refl
  parse_rejected (c ∷ t) e = rw e refl

  pub load_file-torn :
      (law : IsCodec codec) (s : S) (p q : Bytes) (b : ℕ)
      → codec.to_bytes s ≡ p ++ b ∷ q
      → load_file codec (Slot.holds p) ≡ err state_corrupted
  unfolding load_file
  load_file-torn law s p q b e =
      let (t, read, why) = law.torn s p q b e in
      elim why [
        | inl empty ↦ rw (read, empty) refl
        | inr bad ↦ rw read (parse_rejected (strip t) bad)
      ]

  -- A file that gives a state, or is corrupted, is there.
  is_file-read : (x : Slot) (s : S) → load_file codec x ≡ ok s → is_file x ≡ true
  unfolding load_file
  is_file-read Slot.absent s e = absurd (cc)
  is_file-read Slot.unreadable s e = refl
  is_file-read (Slot.holds bs) s e = refl

  pub is_file-corrupted : (x : Slot) → load_file codec x ≡ err state_corrupted → is_file x ≡ true
  unfolding load_file
  is_file-corrupted Slot.absent e = absurd (cc)
  is_file-corrupted Slot.unreadable e = refl
  is_file-corrupted (Slot.holds bs) e = refl

  -- A state file that can be read is what load gives, and nothing is written.
  pub load-read :
      (auto backup : Bool) (calls : Calls) (d : Disk) (s : S)
      → load_file codec d.primary ≡ ok s
      → load codec auto backup calls d ≡ (ok s, d)
  unfolding load
  load-read auto backup calls d s e = rw (is_file-read d.primary s e, e) refl

  pub save-IsSound :
      (backup : Bool) (calls : Calls) (s : S) (d : Disk)
      → IsSound calls
      → (save codec backup calls s d).result ≡ ok tt
  unfolding save swap_in
  save-IsSound backup calls s d sound = rw (sound.sound_write, sound.sound_replace) refl

  -- A corrupted state file is recovered from a backup that can be read.
  pub load-recovered :
      (backup : Bool) (calls : Calls) (d : Disk) (s : S)
      → IsSound calls
      → load_file codec d.primary ≡ err state_corrupted
      → load_file codec d.bak ≡ ok s
      → (load codec true backup calls d).0 ≡ ok s
  unfolding load
  load-recovered backup calls d s sound bad good =
      rw
        (
          is_file-corrupted d.primary bad,
          bad,
          is_file-read d.bak s good,
          good,
          save-IsSound backup calls s d sound,
        )
        refl
