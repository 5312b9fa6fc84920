-- ===== src/State/Store.antt =====
-- StateManager.save, load, _load_file, exists and delete. JSON and the text encoding are
-- parameters. A save also gives the disks on which a crash during it may leave the files: a write
-- shows every prefix of its bytes, a rename none. Permissions, timestamps, the creation of the
-- directory and the fsync calls are left out, the latter since the disk keeps what a call has
-- written.
use relia_dl.Prelude.{
  Bool, true, false, ◌&&◌, ◌||◌, Option, none, some, List, [], ◌∷◌, ◌++◌, map, if◌then◌else◌,
}
use relia_dl.Prelude.Results.{
  Result, ok, err, value_error, key_error, storage_error, state_not_found, state_corrupted,
}
use relia_dl.Prelude.Text.{Text, strip}
use relia_dl.Merkle.{Bytes}

-- A path: no file, a file that cannot be opened, or one with its bytes.
pub data Slot : Type 0 where
  absent : Slot
  unreadable : Slot
  holds : Bytes → Slot

-- path.is_file()
abbrev pub is_file : Slot → Bool
is_file Slot.absent = false
is_file _ = true

-- The state file, its backup and the temporary file of the save.
pub record Disk : Type 0 where
  pub primary : Slot
  pub bak : Slot
  pub tmp : Slot

-- The bytes that DownloadState.to_json is written as, the text that they are read as, and
-- from_json.
pub record Codec (S : Type 0) : Type 0 where
  pub to_bytes : S → Bytes
  pub decode : Bytes → Option Text
  pub from_json : Text → Result S

-- What the calls of one save do: the write of the temporary file, the copy of the backup, the
-- rename, the write in place and the removal of the temporary file. A call that raises OSError
-- leaves something.
pub record Calls : Type 0 where
  pub write_tmp : Option Slot
  pub copy : Option Slot
  pub replace : Bool
  pub in_place : Option Slot
  pub unlink : Bool

-- A save: what it gives, the disk after it, and those that a crash may leave.
pub record Saved : Type 0 where
  pub result : Result (Unit {0})
  pub after : Disk
  pub crashes : List Disk

abbrev pub prefixes : Bytes → List Bytes
prefixes [] = [] ∷ []
prefixes (b ∷ bs) = [] ∷ map (λ p. b ∷ p) (prefixes bs)

-- The disks while a file is written by `open(path, "w")` and `write`.
abbrev pub writing : (Slot → Disk) → Bytes → List Disk
writing place bs = map (λ p. place (Slot.holds p)) (prefixes bs)

-- A disk after some steps of a save, with what they gave and what a crash during them leaves.
pub record Stage : Type 0 where
  pub outcome : Result (Unit {0})
  pub now : Disk
  pub torn : List Disk

-- shutil.copy2 of the state file; an OSError is passed over.
abbrev pub copied : Option Slot → Slot → Disk → Stage
copied outcome Slot.absent d = record { outcome = ok tt; now = d; torn = [] }
copied outcome Slot.unreadable d = record { outcome = ok tt; now = d; torn = [] }
copied none (Slot.holds bs) d = record {
  outcome = ok tt;
  now = record d { bak = Slot.holds bs };
  torn = writing (λ s. record d { bak = s }) bs;
}
copied (some left) (Slot.holds bs) d = record {
  outcome = ok tt;
  now = record d { bak = left };
  torn = [];
}

-- Step 3 of save: the backup, if it is enabled and there is a state file.
abbrev pub rotate : Bool → Option Slot → Disk → Stage
rotate true outcome d = copied outcome d.primary d
rotate false outcome d = record { outcome = ok tt; now = d; torn = [] }

-- Step 4 of save: os.replace, or the write in place.
abbrev pub install : Bool → Option Slot → Bytes → Disk → Stage
install true outcome bs d = record {
  outcome = ok tt;
  now = record d { primary = Slot.holds bs; tmp = Slot.absent };
  torn = [];
}
install false none bs d = record {
  outcome = ok tt;
  now = record d { primary = Slot.holds bs };
  torn = writing (λ s. record d { primary = s }) bs;
}
install false (some left) bs d = record {
  outcome = err storage_error;
  now = record d { primary = left };
  torn = [];
}

-- The `finally` of save.
abbrev pub clean_up : Bool → Disk → Disk
clean_up unlink d = record d {
  tmp = if is_file d.tmp then if unlink then Slot.absent else d.tmp else d.tmp;
}

-- Steps 3 and 4, from a disk on which the temporary file is complete.
unfoldable pub swap_in : Bool → Calls → Bytes → Disk → Saved
swap_in backup calls bs d =
    let kept = rotate backup calls.copy d in
    let put = install calls.replace calls.in_place bs kept.now in
    let last = clean_up calls.unlink put.now in
    record {
      result = put.outcome;
      after = last;
      crashes = d ∷ (kept.torn ++ (kept.now ∷ (put.torn ++ (put.now ∷ last ∷ []))));
    }

module _ {S : Type 0} (codec : Codec S) where
  -- StateManager.save, after it has made the directory; fsync changes nothing on these disks.
  unfoldable pub save : Bool → Calls → S → Disk → Saved
  save backup calls s d =
      let bs = codec.to_bytes s in
      elim calls.write_tmp [
        | some left ↦
            let failed = record d { tmp = left } in
            let last = clean_up calls.unlink failed in
            record { result = err storage_error; after = last; crashes = d ∷ failed ∷ last ∷ [] }
        | none ↦
            let later = swap_in backup calls bs (record d { tmp = Slot.holds bs }) in
            record later { crashes = d ∷ (writing (λ t. record d { tmp = t }) bs ++ later.crashes) }
      ]

  -- `except (json.JSONDecodeError, ValueError, KeyError)`
  abbrev pub corrupted : Result S → Result S
  corrupted (err value_error) = err state_corrupted
  corrupted (err key_error) = err state_corrupted
  corrupted r = r

  abbrev pub parse : Text → Result S
  parse [] = err state_corrupted
  parse (c ∷ t) = corrupted (codec.from_json (c ∷ t))

  -- UnicodeDecodeError, a ValueError, is raised by f.read(), where only OSError is caught.
  abbrev pub read_text : Option Text → Result S
  read_text none = err value_error
  read_text (some t) = parse (strip t)

  -- _load_file
  unfoldable pub load_file : Slot → Result S
  load_file Slot.absent = err storage_error
  load_file Slot.unreadable = err storage_error
  load_file (Slot.holds bs) = read_text (codec.decode bs)

  -- What load does without a state file, with what the backup gives.
  abbrev pub from_backup : Result S → Result S
  from_backup (err state_corrupted) = err state_not_found
  from_backup r = r

  -- The save that puts the backup's state back; `except Exception` passes over what it raises.
  abbrev pub restored : S → Disk → Result (Unit {0}) → Result S × Disk
  restored s d (ok done) = (ok s, d)
  restored s d (err e) = (err state_corrupted, d)

  abbrev pub recover : Bool → Calls → Disk → Result S → Result S × Disk
  recover backup calls d (ok s) =
      let saved = save backup calls s d in restored s saved.after saved.result
  recover backup calls d (err e) = (err state_corrupted, d)

  -- The branches of load on what the state file gives.
  abbrev pub settle : Bool → Bool → Calls → Disk → Result S → Result S × Disk
  settle auto backup calls d (err state_corrupted) =
      if auto && is_file d.bak
      then recover backup calls d (load_file d.bak)
      else (err state_corrupted, d)
  settle auto backup calls d r = (r, d)

  -- StateManager.load: the result with the disk it leaves.
  unfoldable pub load : Bool → Bool → Calls → Disk → Result S × Disk
  load auto backup calls d =
      if is_file d.primary
      then settle auto backup calls d (load_file d.primary)
      else if auto && is_file d.bak
      then (from_backup (load_file d.bak), d)
      else (err state_not_found, d)

-- StateManager.exists
unfoldable pub exists : Disk → Bool
exists d = is_file d.primary || is_file d.bak

-- The removal of a file, which may fail.
abbrev pub removed : Bool → Slot → Slot
removed gone s = if is_file s then if gone then Slot.absent else s else s

-- StateManager.delete, with whether each unlink succeeds.
unfoldable pub delete : Bool → Bool → Bool → Disk → Disk
delete delete_backup gone bak_gone d = record d {
  primary = removed gone d.primary;
  bak = if delete_backup then removed bak_gone d.bak else d.bak;
}
