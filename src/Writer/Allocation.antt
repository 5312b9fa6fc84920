-- ===== src/Writer/Allocation.antt =====
-- The creation of a writer: whatever the strategy, the file has room for what is to be written.
use relia_dl.Prelude.{
  Bool-cases, ℕ, ◌≤◌, ◌≡◌, ◌⊎◌, inl, inr, refl, ◌∙◌, Bool, true, arith, ℕ_discrete, ==_true,
  ==_false,
}
use mathlib.Core.Path.{subst}
use relia_dl.Prelude.Results.{Error, Result, ok, err, disk_full, allocation_error, not_implemented}
use relia_dl.Writer.System.{Answer, Os, SizeLaws}
use relia_dl.Writer.Ops.{
  AllocationStrategy, SparseFileWriter, allocation, allocated, allocate_sparse, allocate_darwin,
  allocate_fallocate, or_sparse, allocate_by, allocate,
}

-- What an allocation may raise. NotImplementedError comes from an explicit `fallocate` only.
pub data IsAllocation : AllocationStrategy → Error → Type 0 where
  space : {s : AllocationStrategy} → IsAllocation s disk_full
  problem : {s : AllocationStrategy} → IsAllocation s allocation_error
  unsupported : IsAllocation AllocationStrategy.fallocate not_implemented

module _ (os : Os) where
  -- An allocation keeps these fields.
  pub record Same (w v : SparseFileWriter os) : Type 0 where
    pub same_size : v.total_size ≡ w.total_size
    pub same_closed : v.is_closed ≡ w.is_closed
    pub same_written : v.written_bytes ≡ w.written_bytes

  -- A writer with room for all its bytes, or an exception.
  pub data Allotted (s : AllocationStrategy) (w : SparseFileWriter os)
      (r : Result (Unit {0}) × SparseFileWriter os) : Type 0 where
    roomy :
        r.0 ≡ ok tt
        → w.total_size ≤ os.size r.1.file
        → r.1.preallocated ≡ true
        → Same w r.1
        → Allotted s w r
    raised : (e : Error) → IsAllocation s e → r.0 ≡ err e → Same w r.1 → Allotted s w r

  kept :
      (w : SparseFileWriter os) (f : os.File) (b : Bool)
      → Same w (record w { file = f; preallocated = b })
  kept w f b = record { same_size = refl; same_closed = refl; same_written = refl }

  allocated-Allotted :
      (s : AllocationStrategy) (w : SparseFileWriter os) (call : Answer (Unit {0}) × os.File)
      (error_of : Answer (Unit {0}) → Error)
      → (call.0 ≡ Answer.done tt → w.total_size ≤ os.size call.1)
      → ((a : Answer (Unit {0})) → IsAllocation s (error_of a))
      → Allotted s w (allocated os call error_of w)
  allocated-Allotted s w (Answer.done u, f) error_of room io =
      Allotted.roomy refl (room refl) refl (kept w f true)
  allocated-Allotted s w (Answer.no_space, f) error_of room io =
      Allotted.raised (error_of Answer.no_space) (io Answer.no_space) refl (kept w f w.preallocated)
  allocated-Allotted s w (Answer.denied, f) error_of room io =
      Allotted.raised (error_of Answer.denied) (io Answer.denied) refl (kept w f w.preallocated)
  allocated-Allotted s w (Answer.refused, f) error_of room io =
      Allotted.raised (error_of Answer.refused) (io Answer.refused) refl (kept w f w.preallocated)

  allocation-IsAllocation :
      (s : AllocationStrategy) (a : Answer (Unit {0})) → IsAllocation s (allocation a)
  allocation-IsAllocation s (Answer.done u) = IsAllocation.problem
  allocation-IsAllocation s Answer.no_space = IsAllocation.space
  allocation-IsAllocation s Answer.denied = IsAllocation.problem
  allocation-IsAllocation s Answer.refused = IsAllocation.problem

  Answer-cases :
      (a : Answer (Unit {0}))
      → (a ≡ Answer.done tt) ⊎ (a ≡ Answer.no_space) ⊎ ((a ≡ Answer.denied) ⊎ (a ≡ Answer.refused))
  Answer-cases (Answer.done u) = inl refl
  Answer-cases Answer.no_space = inr (inl refl)
  Answer-cases Answer.denied = inr (inr (inl refl))
  Answer-cases Answer.refused = inr (inr (inr refl))

  module _ (laws : SizeLaws os) (s : AllocationStrategy) where
    -- A file cut to its size.
    ftruncate-Allotted :
        (w : SparseFileWriter os) (n : ℕ) (f : os.File) (error_of : Answer (Unit {0}) → Error)
        → w.total_size ≡ n
        → ((a : Answer (Unit {0})) → IsAllocation s (error_of a))
        → Allotted s w (allocated os (os.ftruncate n f) error_of w)
    ftruncate-Allotted w n f error_of same io =
        allocated-Allotted s w (os.ftruncate n f) error_of
          (λ e. omega (arith, laws.ftruncate_size n f e)) io

    sparse-Allotted : (w : SparseFileWriter os) → Allotted s w (allocate_sparse os w)
    unfolding allocate_sparse
    sparse-Allotted w =
        ftruncate-Allotted w w.total_size w.file allocation refl (allocation-IsAllocation s)

    darwin-Allotted : (w : SparseFileWriter os) → Allotted s w (allocate_darwin os w)
    unfolding allocate_darwin
    darwin-Allotted w =
        let call = os.preallocate w.total_size w.file in
        let cut = os.ftruncate w.total_size call.1 in
        let again = λ (f : os.File).
          ftruncate-Allotted w w.total_size f (λ a. allocation_error) refl
            (λ a. IsAllocation.problem) in
        elim (Answer-cases call.0) [
          | inr (inl e) ↦
              rw (allocate_darwin, e)
                (Allotted.raised disk_full IsAllocation.space refl (kept w call.1 w.preallocated))
          | inr (inr (inl e)) ↦ rw (allocate_darwin, e) (again call.1)
          | inr (inr (inr e)) ↦ rw (allocate_darwin, e) (again call.1)
          | inl e ↦ elim (Answer-cases cut.0) [
            | inl c ↦
                rw (allocate_darwin, e, c)
                  (Allotted.roomy refl (omega (arith, laws.ftruncate_size w.total_size call.1 c))
                    refl (kept w cut.1 true))
            | inr (inl c) ↦
                rw (allocate_darwin, e, c)
                  (Allotted.raised disk_full IsAllocation.space refl (kept w cut.1 w.preallocated))
            | inr (inr (inl c)) ↦ rw (allocate_darwin, e, c) (again cut.1)
            | inr (inr (inr c)) ↦ rw (allocate_darwin, e, c) (again cut.1)
          ]
        ]

  module _ (laws : SizeLaws os) where
    -- allocate_fallocate by a strategy: NotImplementedError is the third outcome.
    fallocate-Allotted :
        (s : AllocationStrategy) (w : SparseFileWriter os)
        → Allotted s w (allocate_fallocate os w)
          ⊎ (allocate_fallocate os w ≡ (err not_implemented, w))
    unfolding allocate_fallocate
    fallocate-Allotted s w = elim (Bool-cases os.has_fallocate) [
      | inl has ↦ inl (
          rw has (
            allocated-Allotted s w (os.posix_fallocate w.total_size w.file) allocation
              (λ e. omega (arith, laws.fallocate_size w.total_size w.file e))
              (allocation-IsAllocation s)))
      | inr lacks ↦ elim (Bool-cases os.is_darwin) [
        | inl darwin ↦ inl (rw (lacks, darwin) (darwin-Allotted laws s w))
        | inr other ↦ inr (rw (lacks, other) refl)
      ]
    ]

    Same-trans : (w v u : SparseFileWriter os) → Same w v → Same v u → Same w u
    Same-trans w v u a b = record {
      same_size = b.same_size ∙ a.same_size;
      same_closed = b.same_closed ∙ a.same_closed;
      same_written = b.same_written ∙ a.same_written;
    }

    Allotted-trans :
        (s : AllocationStrategy) (w v : SparseFileWriter os)
        (r : Result (Unit {0}) × SparseFileWriter os)
        → Same w v
        → Allotted s v r
        → Allotted s w r
    Allotted-trans s w v r k (Allotted.roomy good room flag same) =
        Allotted.roomy good (omega (arith, k.same_size)) flag (Same-trans w v r.1 k same)
    Allotted-trans s w v r k (Allotted.raised e io bad same) =
        Allotted.raised e io bad (Same-trans w v r.1 k same)

    or_sparse-Allotted :
        (w v : SparseFileWriter os) (e : Error)
        → IsAllocation AllocationStrategy.auto e
        → Same w v
        → Allotted AllocationStrategy.auto w (or_sparse os (err e, v))
    or_sparse-Allotted w v _ IsAllocation.space same =
        Allotted.raised disk_full IsAllocation.space refl same
    or_sparse-Allotted w v _ IsAllocation.problem same =
        Allotted-trans AllocationStrategy.auto w v _ same
          (sparse-Allotted laws AllocationStrategy.auto v)

    auto-Allotted :
        (w : SparseFileWriter os) (r : Result (Unit {0}) × SparseFileWriter os)
        → Allotted AllocationStrategy.auto w r
        → Allotted AllocationStrategy.auto w (or_sparse os r)
    auto-Allotted w (ok u, v) a = a
    auto-Allotted w (err e, v) (Allotted.roomy good room flag same) = absurd (cc)
    auto-Allotted w (err e, v) (Allotted.raised c io bad same) =
        let known : c ≡ e = cc in
        or_sparse-Allotted w v e (subst (IsAllocation AllocationStrategy.auto) known io) same

    allocate_by-Allotted :
        (s : AllocationStrategy) (w : SparseFileWriter os) → Allotted s w (allocate_by os s w)
    unfolding allocate_by
    allocate_by-Allotted AllocationStrategy.sparse w =
        sparse-Allotted laws AllocationStrategy.sparse w
    allocate_by-Allotted AllocationStrategy.truncate w =
        sparse-Allotted laws AllocationStrategy.truncate w
    allocate_by-Allotted AllocationStrategy.fallocate w =
        elim (fallocate-Allotted AllocationStrategy.fallocate w) [
          | inl a ↦ a
          | inr e ↦ rw e (
              Allotted.raised not_implemented IsAllocation.unsupported refl
                (kept w w.file w.preallocated))
        ]
    allocate_by-Allotted AllocationStrategy.auto w =
        elim (fallocate-Allotted AllocationStrategy.auto w) [
          | inl a ↦ auto-Allotted w _ a
          | inr e ↦ rw e (sparse-Allotted laws AllocationStrategy.auto w)
        ]

    pub allocate-Allotted : (w : SparseFileWriter os) → Allotted w.strategy w (allocate os w)
    unfolding allocate
    allocate-Allotted w = elim (ℕ_discrete w.total_size 0) [
      | yes empty ↦ rw (==_true w.total_size 0 empty) (
          ftruncate-Allotted laws w.strategy w 0 w.file (λ a. allocation_error) empty
            (λ a. IsAllocation.problem))
      | no some_byte ↦ rw (==_false w.total_size 0 some_byte) (allocate_by-Allotted w.strategy w)
    ]
