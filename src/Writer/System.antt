-- ===== src/Writer/System.antt =====
-- The calls of the operating system that reliadl/sparse_writer.py makes, with what it relies on.
use relia_dl.Prelude.{ℕ, ◌+◌, ◌-◌, ◌≤◌, ◌<◌, ◌≡◌, ◌⊎◌, Bool, Option, length, get_elem?, max}
use relia_dl.Merkle.{Bytes}

-- What a call gives: a value, or an OSError by its errno, ENOSPC, EACCES or EPERM, and the others.
pub data Answer {u} (T : Type u) : Type u where
  done : T → Answer T
  no_space : Answer T
  denied : Answer T
  refused : Answer T

-- The open file and the calls on it. A call may write fewer bytes than it is given.
pub record Os : Type 1 where
  pub File : Type 0
  pub size : File → ℕ
  pub byte : File → ℕ → Option ℕ
  pub pwrite : Bytes → ℕ → File → Answer ℕ × File
  pub pread : ℕ → ℕ → File → Answer Bytes
  pub fsync : File → Answer (Unit {0})
  pub ftruncate : ℕ → File → Answer (Unit {0}) × File
  pub posix_fallocate : ℕ → File → Answer (Unit {0}) × File
  -- fcntl with F_PREALLOCATE
  pub preallocate : ℕ → File → Answer (Unit {0}) × File
  pub has_fallocate : Bool
  pub is_darwin : Bool
  -- os.open of the target, the creation of its directory and the free bytes there
  pub open_file : Answer File
  pub mkdir : Answer (Unit {0})
  pub disk_free : Answer ℕ

module _ (os : Os) where
  -- A write inside the file: the bytes it counts are there, any other byte is the old one or the
  -- one that was given for its place, and the size stays.
  pub record IsPwrite (d : Bytes) (off : ℕ) (f : os.File) : Type 0 where
    pub pwrite_size : os.size (os.pwrite d off f).1 ≡ os.size f
    pub pwrite_count : (k : ℕ) → (os.pwrite d off f).0 ≡ Answer.done k → k ≤ length d
    pub pwrite_written :
        (k : ℕ)
        → (os.pwrite d off f).0 ≡ Answer.done k
        → (i : ℕ) → i < k
        → os.byte (os.pwrite d off f).1 (off + i) ≡ get_elem? d i
    pub pwrite_byte :
        (j : ℕ)
        → (os.byte (os.pwrite d off f).1 j ≡ os.byte f j)
          ⊎ ((off ≤ j)
              × (j < off + length d)
              × (os.byte (os.pwrite d off f).1 j ≡ get_elem? d (j - off)))

  -- A read gives bytes of the file from its place on, at most as many as asked for.
  pub record IsPread (n off : ℕ) (f : os.File) : Type 0 where
    pub pread_count : (d : Bytes) → os.pread n off f ≡ Answer.done d → length d ≤ n
    pub pread_byte :
        (d : Bytes)
        → os.pread n off f ≡ Answer.done d
        → (i : ℕ) → i < length d
        → get_elem? d i ≡ os.byte f (off + i)

  pub record Laws : Type 0 where
    pub pwrite_law :
        (d : Bytes) (off : ℕ) (f : os.File) → off + length d ≤ os.size f → IsPwrite d off f
    pub pread_law : (n off : ℕ) (f : os.File) → IsPread n off f

  -- The calls that give a file its size.
  pub record SizeLaws : Type 0 where
    pub ftruncate_size :
        (n : ℕ) (f : os.File)
        → (os.ftruncate n f).0 ≡ Answer.done tt
        → os.size (os.ftruncate n f).1 ≡ n
    pub fallocate_size :
        (n : ℕ) (f : os.File)
        → (os.posix_fallocate n f).0 ≡ Answer.done tt
        → os.size (os.posix_fallocate n f).1 ≡ max (os.size f) n
