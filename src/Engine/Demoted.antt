-- ===== src/Engine/Demoted.antt =====
-- What the checkpoint of an interrupted session makes of the chunks.
use relia_dl.Prelude.{◌≡◌, ◌≢◌, ◌⊎◌, inl, inr, refl, ap, List, [], ◌∷◌, map, All}
use relia_dl.Models.{ChunkStatus, ChunkState}
use relia_dl.Engine.Resume.{demoted, demote}

-- The statuses of a chunk whose work was interrupted or went wrong.
pub data IsInterrupted : ChunkStatus → Type 0 where
  running : IsInterrupted ChunkStatus.in_progress
  downloading : IsInterrupted ChunkStatus.downloading
  failed : IsInterrupted ChunkStatus.failed

-- What the checkpoint makes of a chunk: one that was interrupted is pending, with the rest of it as
-- it was; any other is as it was.
pub data Demoted (c d : ChunkState) : Type 0 where
  waits : IsInterrupted c.status → d ≡ record c { status = ChunkStatus.pending } → Demoted c d
  stays : ¬ IsInterrupted c.status → d ≡ c → Demoted c d

abbrev pub AllDemoted : List ChunkState → List ChunkState → Type 0
AllDemoted [] [] = Unit
AllDemoted (c ∷ cs) (d ∷ ds) = Demoted c d × AllDemoted cs ds
AllDemoted _ _ = ⊥

demoted-cases :
    (k : ChunkStatus)
    → (IsInterrupted k × (demoted k ≡ ChunkStatus.pending))
      ⊎ ((¬ IsInterrupted k) × (demoted k ≡ k))
unfolding demoted
demoted-cases ChunkStatus.pending = inr ((λ i. elim i [ ]), refl)
demoted-cases ChunkStatus.downloading = inl (IsInterrupted.downloading, refl)
demoted-cases ChunkStatus.in_progress = inl (IsInterrupted.running, refl)
demoted-cases ChunkStatus.verifying = inr ((λ i. elim i [ ]), refl)
demoted-cases ChunkStatus.complete = inr ((λ i. elim i [ ]), refl)
demoted-cases ChunkStatus.completed = inr ((λ i. elim i [ ]), refl)
demoted-cases ChunkStatus.failed = inl (IsInterrupted.failed, refl)
demoted-cases ChunkStatus.abandoned = inr ((λ i. elim i [ ]), refl)

demote-Demoted : (c : ChunkState) → Demoted c (demote c)
unfolding demote
demote-Demoted c = elim (demoted-cases c.status) [
  | inl (work, e) ↦ Demoted.waits work (ap (λ k. record c { status = k }) e)
  | inr (idle, e) ↦ Demoted.stays idle (ap (λ k. record c { status = k }) e)
]

pub map-AllDemoted : (cs : List ChunkState) → AllDemoted cs (map demote cs)
map-AllDemoted [] = tt
map-AllDemoted (c ∷ cs) = (demote-Demoted c, map-AllDemoted cs)

-- A status that a checkpoint of an interrupted session writes.
abbrev pub IsRested : ChunkState → Type 0
IsRested c =
    (c.status ≢ ChunkStatus.in_progress)
    × (c.status ≢ ChunkStatus.downloading)
    × (c.status ≢ ChunkStatus.failed)

demoted-IsRested :
    (k : ChunkStatus)
    → (demoted k ≢ ChunkStatus.in_progress)
      × (demoted k ≢ ChunkStatus.downloading)
      × (demoted k ≢ ChunkStatus.failed)
unfolding demoted
demoted-IsRested ChunkStatus.pending = ((λ e. cc), (λ e. cc), (λ e. cc))
demoted-IsRested ChunkStatus.downloading = ((λ e. cc), (λ e. cc), (λ e. cc))
demoted-IsRested ChunkStatus.in_progress = ((λ e. cc), (λ e. cc), (λ e. cc))
demoted-IsRested ChunkStatus.verifying = ((λ e. cc), (λ e. cc), (λ e. cc))
demoted-IsRested ChunkStatus.complete = ((λ e. cc), (λ e. cc), (λ e. cc))
demoted-IsRested ChunkStatus.completed = ((λ e. cc), (λ e. cc), (λ e. cc))
demoted-IsRested ChunkStatus.failed = ((λ e. cc), (λ e. cc), (λ e. cc))
demoted-IsRested ChunkStatus.abandoned = ((λ e. cc), (λ e. cc), (λ e. cc))

pub demote-IsRested : (cs : List ChunkState) → All IsRested (map demote cs)
unfolding demote
demote-IsRested [] = tt
demote-IsRested (c ∷ cs) = (demoted-IsRested c.status, demote-IsRested cs)
