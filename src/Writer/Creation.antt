-- ===== src/Writer/Creation.antt =====
-- SparseFileWriter.__init__: what it gives.
use relia_dl.Prelude.{ℕ, ◌<◌, ◌≡◌, ◌⊎◌, Bool, true, false}
use relia_dl.Prelude.Int.{ℤ, pos, ltb_ℤ, pos_part}
use relia_dl.Prelude.Results.{
  Error, Result, ok, err, storage_error, disk_full, value_error, storage_permission,
}
use relia_dl.Writer.System.{Answer, Os}
use relia_dl.Writer.Ops.{AllocationStrategy, SparseFileWriter, allocate}
use relia_dl.Writer.Calls.{HasRoom}
use relia_dl.Writer.Allocation.{IsAllocation}

-- A call of the system that fails, and the exception that the constructor raises for it.
pub data IsFailure {T : Type 0} : Answer T → Error → Type 0 where
  no_permission : IsFailure Answer.denied storage_permission
  no_room : IsFailure Answer.no_space storage_error
  other : IsFailure Answer.refused storage_error

module _ (os : Os) where
  -- The writer of a file that was opened, before its allocation.
  abbrev pub unallocated : ℕ → AllocationStrategy → os.File → SparseFileWriter os
  unallocated total s f = record {
    file = f;
    total_size = total;
    strategy = s;
    is_closed = false;
    preallocated = false;
    written_bytes = 0;
  }

  -- The exceptions of the constructor, each with the call that failed: creating the directory,
  -- which was asked for; the space check, which was asked for and found too little; opening the
  -- file; allocating it.
  pub data Cause (n : ℕ) (s : AllocationStrategy) (create_dirs check : Bool) : Error → Type 0 where
    directory :
        {e : Error} → create_dirs ≡ true → IsFailure os.mkdir e → Cause n s create_dirs check e
    space :
        (free : ℕ)
        → check ≡ true
        → os.disk_free ≡ Answer.done free
        → free < n
        → Cause n s create_dirs check disk_full
    opening : {e : Error} → IsFailure os.open_file e → Cause n s create_dirs check e
    allocation :
        {e : Error} (f : os.File)
        → os.open_file ≡ Answer.done f
        → (allocate os (unallocated n s f)).0 ≡ err e
        → IsAllocation s e
        → Cause n s create_dirs check e

  -- An open writer with room for all its bytes and none of them written, or an exception.
  pub data Created (total : ℤ) (s : AllocationStrategy) (create_dirs check : Bool)
      (r : Result (SparseFileWriter os)) : Type 0 where
    ready :
        (w : SparseFileWriter os)
        → r ≡ ok w
        → ltb_ℤ total (pos 0) ≡ false
        → w.total_size ≡ pos_part total
        → HasRoom os w
        → w.is_closed ≡ false
        → w.preallocated ≡ true
        → w.written_bytes ≡ 0
        → Created total s create_dirs check r
    negative :
        ltb_ℤ total (pos 0) ≡ true → r ≡ err value_error → Created total s create_dirs check r
    raised :
        (e : Error)
        → ltb_ℤ total (pos 0) ≡ false
        → Cause (pos_part total) s create_dirs check e
        → r ≡ err e
        → Created total s create_dirs check r

  module _ (total : ℤ) (s : AllocationStrategy) (create_dirs check : Bool) where
    -- A statement that may raise.
    Stage : Result (Unit {0}) → Type 0
    Stage r =
        (r ≡ ok tt) ⊎ ((e : Error) × Cause (pos_part total) s create_dirs check e × (r ≡ err e))
