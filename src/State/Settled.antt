-- ===== src/State/Settled.antt =====
-- A reconciliation settles each chunk: a second one with the same files finds nothing to do.
use relia_dl.Prelude.{ℕ, ◌≡◌, refl, sym, ap, ◌∙◌, true, Option, some, List, [], ◌∷◌, map}
use relia_dl.Models.{ChunkStatus, ChunkState, DownloadState, size, is_successful}
use relia_dl.State.Inventory.{
  PartFiles, is_size, check_complete, reconcile_by, reconcile_chunk, reconcile_inventory,
}
use relia_dl.State.Reconciled.{IsWhole, Reconciled, reconcile_by-Reconciled}

complete_whole :
    (files : PartFiles) (c : ChunkState) (o : Option ℕ) (n : ℕ)
    → o ≡ some n
    → is_size (size c) n ≡ true
    → check_complete files c o ≡ record c { file_path = some (files.part_path c.index) }
unfolding check_complete
complete_whole files c o n e fits = rw (check_complete, e, fits) refl

reconcile_by_whole :
    (files : PartFiles) (c : ChunkState) (k : ChunkStatus)
    → is_successful k ≡ true
    → IsWhole files c
    → reconcile_by files c k ≡ record c { file_path = some (files.part_path c.index) }
unfolding is_successful
reconcile_by_whole files c ChunkStatus.complete good (n, there, fits) =
    complete_whole files c (files.part_size c.index) n there fits
reconcile_by_whole files c ChunkStatus.completed good (n, there, fits) =
    complete_whole files c (files.part_size c.index) n there fits
reconcile_by_whole files c ChunkStatus.pending good whole = absurd (cc)
reconcile_by_whole files c ChunkStatus.downloading good whole = absurd (cc)
reconcile_by_whole files c ChunkStatus.in_progress good whole = absurd (cc)
reconcile_by_whole files c ChunkStatus.verifying good whole = absurd (cc)
reconcile_by_whole files c ChunkStatus.failed good whole = absurd (cc)
reconcile_by_whole files c ChunkStatus.abandoned good whole = absurd (cc)

-- What a reconciliation has settled it leaves.
chunk_twice :
    (files : PartFiles) (c d : ChunkState)
    → reconcile_chunk files c ≡ d
    → Reconciled files c d
    → reconcile_chunk files d ≡ d
unfolding reconcile_chunk size
chunk_twice files c d e (Reconciled.kept good whole same) =
    let p = some (files.part_path c.index) in
    ap (reconcile_chunk files) same
    ∙ reconcile_by_whole files (record c { file_path = p }) c.status good whole
    ∙ sym same
chunk_twice files c d e (Reconciled.lost good gone same failed bad) =
    ap (reconcile_by files d) failed
chunk_twice files c d e (Reconciled.found active whole same status) =
    ap (reconcile_by files d) status
chunk_twice files c d e (Reconciled.restarted active gone same status) =
    ap (reconcile_by files d) status
chunk_twice files c d e (Reconciled.untouched idle other same) = ap (reconcile_chunk files) same ∙ e

map_twice :
    (files : PartFiles) (cs : List ChunkState)
    → map (reconcile_chunk files) (map (reconcile_chunk files) cs) ≡ map (reconcile_chunk files) cs
unfolding reconcile_chunk
map_twice files [] = refl
map_twice files (c ∷ cs) =
    let head =
      chunk_twice files c (reconcile_chunk files c) refl
        (reconcile_by-Reconciled files c c.status refl) in
    ap (λ d. d ∷ map (reconcile_chunk files) (map (reconcile_chunk files) cs)) head
    ∙ ap (λ ds. reconcile_chunk files c ∷ ds) (map_twice files cs)

-- A second reconciliation with the same files changes nothing.
pub reconcile_twice :
    (files : PartFiles) (s : DownloadState)
    → reconcile_inventory files (reconcile_inventory files s) ≡ reconcile_inventory files s
unfolding reconcile_inventory
reconcile_twice files s = ap (λ cs. record s { chunks = cs }) (map_twice files s.chunks)
