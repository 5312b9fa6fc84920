-- ===== src/Tests/State.antt =====
-- A state that is one of two texts in braces, saved over the other.
use relia_dl.Prelude.{
  ℕ, ◌≡◌, ◌⊎◌, inl, inr, refl, ap, arith, length, length-append, Bool, true, false, none, some, [],
  ◌∷◌, ◌++◌, All, Any, get_or, ◌==◌, if◌then◌else◌,
}
use relia_dl.Prelude.Results.{Result, ok, err, value_error, state_corrupted}
use relia_dl.Prelude.Text.{Text, strip, text_eq, lstrip, is_space}
use relia_dl.Merkle.{Bytes}
use relia_dl.Models.{
  DownloadState, DownloadStatus, new_chunk_state, mark_in_progress, mark_complete,
}
use relia_dl.State.{
  Slot, Disk, Codec, Calls, save, swap_in, load, load_file, PartFiles, reconcile_inventory,
}
use relia_dl.State.Loading.{IsCodec}
use relia_dl.State.Saving.{Guarded, Survives, save-Survives}
use relia_dl.State.Recovery.{load-save, save-torn}
use relia_dl.State.Reconciled.{AllReconciled, reconcile-AllReconciled}
use relia_dl.State.Settled.{reconcile_twice}

abbrev written : Bool → Bytes
written true = 123 ∷ 49 ∷ 125 ∷ []
written false = 123 ∷ 48 ∷ 125 ∷ []

abbrev parsed : Text → Result Bool
parsed t =
    if text_eq t (written true)
    then ok true
    else if text_eq t (written false)
    then ok false
    else err value_error

abbrev bits : Codec Bool
bits = record { to_bytes = written; decode = λ b. some b; from_json = parsed }

-- A code of a list, and its length.
abbrev code : ℕ → Bytes → ℕ
code i l = get_or l i 0

bits_torn :
    (s : Bool) (p q : Bytes) (b : ℕ)
    → written s ≡ p ++ b ∷ q
    → (strip p ≡ []) ⊎ (parsed (strip p) ≡ err value_error)
unfolding strip text_eq lstrip is_space
bits_torn s [] q b e = inl refl
bits_torn true (x ∷ []) q b e = let first : 123 ≡ x = ap (code 0) e in rw⁻¹ first (inr refl)
bits_torn false (x ∷ []) q b e = let first : 123 ≡ x = ap (code 0) e in rw⁻¹ first (inr refl)
bits_torn true (x ∷ y ∷ []) q b e =
    let first : 123 ≡ x = ap (code 0) e in
    let second : 49 ≡ y = ap (code 1) e in rw⁻¹ (first, second) (inr refl)
bits_torn false (x ∷ y ∷ []) q b e =
    let first : 123 ≡ x = ap (code 0) e in
    let second : 48 ≡ y = ap (code 1) e in rw⁻¹ (first, second) (inr refl)
bits_torn true (x ∷ y ∷ z ∷ p) q b e = absurd (omega (arith, ap length e, length-append p (b ∷ q)))
bits_torn false (x ∷ y ∷ z ∷ p) q b e = absurd (omega (arith, ap length e, length-append p (b ∷ q)))

bits_read :
    (s : Bool)
    → (t rest : Text) × (c : ℕ) × (bits.decode (bits.to_bytes s) ≡ some t)
      × (strip t ≡ c ∷ rest)
      × (bits.from_json (c ∷ rest) ≡ ok s)
unfolding strip text_eq lstrip is_space
bits_read true = (written true, (49 ∷ 125 ∷ []), 123, refl, refl, refl)
bits_read false = (written false, (48 ∷ 125 ∷ []), 123, refl, refl, refl)

bits-IsCodec : IsCodec bits
bits-IsCodec = record { reads_back = bits_read; torn = λ s p q b e. (p, refl, bits_torn s p q b e) }

-- The write of the temporary file and the rename succeed, or the rename does not.
abbrev pub renaming : Calls
renaming = record { write_tmp = none; copy = none; replace = true; in_place = none; unlink = true }

abbrev in_place : Calls
in_place = record { write_tmp = none; copy = none; replace = false; in_place = none; unlink = true }

abbrev pub empty_disk : Disk
empty_disk = record { primary = Slot.absent; bak = Slot.absent; tmp = Slot.absent }

abbrev old_disk : Disk
old_disk = record { primary = Slot.holds (written false); bak = Slot.absent; tmp = Slot.absent }

abbrev torn_disk : Disk
torn_disk = record {
  primary = Slot.holds (123 ∷ []);
  bak = Slot.holds (written false);
  tmp = Slot.absent;
}

save-Survives_example :
    All (Survives bits bits-IsCodec false true) (save bits true in_place true old_disk).crashes
unfolding load_file strip text_eq lstrip is_space
save-Survives_example =
    save-Survives bits bits-IsCodec false true true in_place old_disk
      (Guarded.backed_up refl refl refl refl) refl

load-save_example :
    load bits true true renaming (save bits true in_place true torn_disk).after
    ≡ (ok true, (save bits true in_place true torn_disk).after)
unfolding save swap_in
load-save_example =
    load-save bits true true true in_place renaming true torn_disk (bits_read true) refl

save-torn_example :
    Any
      (λ e. (load bits true true renaming e).0 ≡ err state_corrupted)
      (save bits true renaming false torn_disk).crashes
unfolding load_file strip text_eq lstrip is_space
save-torn_example =
    save-torn bits true true renaming renaming false torn_disk (123 ∷ []) refl refl refl refl

abbrev parts : PartFiles
parts = record {
  part_size = λ i. if i == 0 then some 4 else if i == 1 then some 3 else none;
  part_path = λ i. i ∷ [];
  mismatch = λ expected actual. actual ∷ [];
}

-- Chunks of four bytes: one is complete, one was cut, and one was being downloaded.
abbrev pub session : DownloadState
session = record {
  download_id = [];
  url = [];
  target_path = [];
  file_size = 12;
  chunk_size = 4;
  hash_algorithm = [];
  expected_file_hash = none;
  etag = none;
  output_path = none;
  status = DownloadStatus.in_progress;
  chunks =
      mark_complete none (new_chunk_state 0 0 3)
      ∷ mark_complete none (new_chunk_state 1 4 7)
      ∷ mark_in_progress (new_chunk_state 2 8 11)
      ∷ [];
  statistics = none;
}

reconcile-AllReconciled_example :
    AllReconciled parts session.chunks (reconcile_inventory parts session).chunks
reconcile-AllReconciled_example = reconcile-AllReconciled parts session

reconcile_twice_example :
    reconcile_inventory parts (reconcile_inventory parts session)
    ≡ reconcile_inventory parts session
reconcile_twice_example = reconcile_twice parts session
