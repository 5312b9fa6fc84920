-- ===== src/Writer/Ops.antt =====
-- SparseFileWriter, where os.pwrite and os.pread exist. A method gives its result with the writer
-- it leaves, since a method that raises may have written. `_fd` is None only after close.
use relia_dl.Prelude.{
  ℕ, zero, suc, ◌+◌, Bool, true, false, Option, none, some, [], ◌||◌, ◌&&◌, length, drop, ltb, leb,
  ◌==◌, if◌then◌else◌,
}
use relia_dl.Prelude.Int.{ℤ, pos, ltb_ℤ, pos_part}
use relia_dl.Prelude.Results.{
  Error, Result, ok, err, storage_error, disk_full, value_error, allocation_error, not_implemented,
  storage_permission, ◌>>◌,
}
use relia_dl.Merkle.{Bytes}
use relia_dl.Models.{ChunkSpec}
use relia_dl.Writer.System.{Answer, Os}

pub data AllocationStrategy : Type 0 where
  auto fallocate sparse truncate : AllocationStrategy

-- An OSError of an allocation.
abbrev pub allocation {u} : {T : Type u} → Answer T → Error
allocation Answer.no_space = disk_full
allocation _ = allocation_error

module _ (os : Os) where
  pub record SparseFileWriter : Type 0 where
    pub file : os.File
    pub total_size : ℕ
    pub strategy : AllocationStrategy
    pub is_closed : Bool
    pub preallocated : Bool
    pub written_bytes : ℕ

  -- The loop of write_at over os.pwrite, with the bytes written so far.
  unfoldable pub write_loop : ℕ → Bytes → ℕ → ℕ → os.File → Result ℕ × os.File
  write_loop zero d off written f = (ok written, f)
  write_loop (suc n) d off written f =
      if leb (length d) written
      then (ok written, f)
      else let call = os.pwrite (drop written d) (off + written) f in
        elim call.0 [
          | Answer.done zero ↦ (err storage_error, call.1)
          | Answer.done (suc k) ↦ write_loop n d off (written + suc k) call.1
          | Answer.no_space ↦ (err disk_full, call.1)
          | Answer.denied ↦ (err storage_error, call.1)
          | Answer.refused ↦ (err storage_error, call.1)
        ]

  -- What write_at does with what the loop gives.
  abbrev pub count_written : SparseFileWriter → Result ℕ × os.File → Result ℕ × SparseFileWriter
  count_written w (ok n, f) = (ok n, record w { file = f; written_bytes = w.written_bytes + n })
  count_written w (err e, f) = (err e, record w { file = f })

  -- Each round of the loop writes a byte at least, so as many rounds as there are bytes are enough.
  unfoldable pub write_at : ℤ → Bytes → SparseFileWriter → Result ℕ × SparseFileWriter
  write_at off d w =
      if w.is_closed
      then (err storage_error, w)
      else if ltb_ℤ off (pos 0)
      then (err storage_error, w)
      else if length d == 0
      then (ok 0, w)
      else if ltb w.total_size (pos_part off + length d)
      then (err storage_error, w)
      else count_written w (write_loop (length d) d (pos_part off) 0 w.file)

  -- write_chunk with a ChunkSpec.
  unfoldable pub write_chunk : ChunkSpec → Bytes → SparseFileWriter → Result ℕ × SparseFileWriter
  write_chunk c d w =
      if length d == c.size then write_at (pos c.start_byte) d w else (err storage_error, w)

  -- write_chunk with the index of a chunk and an optional offset.
  unfoldable pub write_index : Option ℤ → Bytes → SparseFileWriter → Result ℕ × SparseFileWriter
  write_index none d w = (err value_error, w)
  write_index (some off) d w = write_at off d w

  abbrev pub read_result : Answer Bytes → Result Bytes
  read_result (Answer.done d) = ok d
  read_result _ = err storage_error

  unfoldable pub read_at : ℤ → ℤ → SparseFileWriter → Result Bytes
  read_at off n w =
      if w.is_closed
      then err storage_error
      else if ltb_ℤ off (pos 0) || ltb_ℤ n (pos 0)
      then err storage_error
      else if pos_part n == 0
      then ok []
      else read_result (os.pread (pos_part n) (pos_part off) w.file)

  unfoldable pub sync : SparseFileWriter → Result (Unit {0})
  sync w =
      if w.is_closed
      then err storage_error
      else elim (os.fsync w.file) [ Answer.done done ↦ ok tt | _ ↦ err storage_error ]

  -- close, whatever fsync and close say.
  unfoldable pub close : SparseFileWriter → SparseFileWriter
  close w = record w { is_closed = true }

  -- What an allocation leaves: the flag is set when a call has succeeded.
  abbrev pub allocated :
      Answer (Unit {0}) × os.File
      → (Answer (Unit {0}) → Error)
      → SparseFileWriter
      → Result (Unit {0}) × SparseFileWriter
  allocated (Answer.done done, f) problem w = (ok tt, record w { file = f; preallocated = true })
  allocated (a, f) problem w = (err (problem a), record w { file = f })

  unfoldable pub allocate_sparse : SparseFileWriter → Result (Unit {0}) × SparseFileWriter
  allocate_sparse w = allocated (os.ftruncate w.total_size w.file) allocation w

  -- The branch of _allocate_fallocate for macOS: fcntl and ftruncate in one try, then ftruncate
  -- alone.
  unfoldable pub allocate_darwin : SparseFileWriter → Result (Unit {0}) × SparseFileWriter
  allocate_darwin w =
      let call = os.preallocate w.total_size w.file in
      let cut = os.ftruncate w.total_size call.1 in
      elim call.0 [
        | Answer.no_space ↦ (err disk_full, record w { file = call.1 })
        | Answer.done done ↦ elim cut.0 [
          | Answer.no_space ↦ (err disk_full, record w { file = cut.1 })
          | Answer.done done ↦ (ok tt, record w { file = cut.1; preallocated = true })
          | _ ↦ allocated (os.ftruncate w.total_size cut.1) (λ a. allocation_error) w
        ]
        | _ ↦ allocated cut (λ a. allocation_error) w
      ]

  unfoldable pub allocate_fallocate : SparseFileWriter → Result (Unit {0}) × SparseFileWriter
  allocate_fallocate w =
      if os.has_fallocate
      then allocated (os.posix_fallocate w.total_size w.file) allocation w
      else if os.is_darwin
      then allocate_darwin w
      else (err not_implemented, w)

  -- AUTO: NotImplementedError and AllocationError lead to a sparse file, DiskFullError is passed
  -- on.
  abbrev pub or_sparse : Result (Unit {0}) × SparseFileWriter → Result (Unit {0}) × SparseFileWriter
  or_sparse (err not_implemented, w) = allocate_sparse w
  or_sparse (err allocation_error, w) = allocate_sparse w
  or_sparse r = r

  unfoldable pub allocate_by :
      AllocationStrategy → SparseFileWriter → Result (Unit {0}) × SparseFileWriter
  allocate_by AllocationStrategy.sparse w = allocate_sparse w
  allocate_by AllocationStrategy.fallocate w = allocate_fallocate w
  allocate_by AllocationStrategy.truncate w = allocate_sparse w
  allocate_by AllocationStrategy.auto w = or_sparse (allocate_fallocate w)

  -- _allocate
  unfoldable pub allocate : SparseFileWriter → Result (Unit {0}) × SparseFileWriter
  allocate w =
      if w.total_size == 0
      then allocated (os.ftruncate 0 w.file) (λ a. allocation_error) w
      else allocate_by w.strategy w

  -- _verify_disk_space: a file system that does not tell does not stop the download.
  unfoldable pub verify_disk_space : ℕ → Result (Unit {0})
  verify_disk_space required = elim os.disk_free [
    | Answer.done free ↦ if ltb free required then err disk_full else ok tt
    | _ ↦ ok tt
  ]

  -- The creation of the parent directory.
  abbrev pub made : Answer (Unit {0}) → Result (Unit {0})
  made (Answer.done done) = ok tt
  made Answer.denied = err storage_permission
  made _ = err storage_error

  -- The constructor raises what the allocation raises.
  abbrev pub created : Result (Unit {0}) × SparseFileWriter → Result SparseFileWriter
  created (ok done, w) = ok w
  created (err e, w) = err e

  -- os.open and the allocation of what it opened.
  abbrev pub opened : ℕ → AllocationStrategy → Answer os.File → Result SparseFileWriter
  opened total strategy (Answer.done f) = created (
      allocate (record {
        file = f;
        total_size = total;
        strategy = strategy;
        is_closed = false;
        preallocated = false;
        written_bytes = 0;
      }))
  opened total strategy Answer.denied = err storage_permission
  opened total strategy _ = err storage_error

  -- SparseFileWriter.__init__
  unfoldable pub new_writer : ℤ → AllocationStrategy → Bool → Bool → Result SparseFileWriter
  new_writer total strategy create_dirs check_disk_space =
      if ltb_ℤ total (pos 0) then err value_error else do
        if create_dirs then made os.mkdir else ok tt
        if check_disk_space && ltb 0 (pos_part total)
            then verify_disk_space (pos_part total)
            else ok tt
        opened (pos_part total) strategy os.open_file
