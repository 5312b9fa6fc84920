-- ===== src/Engine/Whole.antt =====
-- The chunks of a partition and the writes for them make up the file.
use relia_dl.Prelude.{ℕ, ◌+◌, ◌≤◌, ◌<◌, ◌≡◌, Option, List, [], ◌∷◌, map, arith, dec_lt, All}
use relia_dl.Prelude.Int.{ℤ}
use relia_dl.Models.{ChunkState}
use relia_dl.Planner.Tiling.{Tiles, state_range}
use relia_dl.Scheduler.{fixed_partition}
use relia_dl.Scheduler.Fixed.{fixed_partition-Tiles}
use relia_dl.Writer.{Os, Laws, SparseFileWriter}
use relia_dl.Writer.Calls.{HasRoom}
use relia_dl.Writer.Ranges.{Piece, IsFrom, Landed, write_pieces, write_pieces-IsFrom}

-- A byte of a chunk.
abbrev pub InChunk : ℕ → ChunkState → Type 0
InChunk j c = (c.start_byte ≤ j) × (j ≤ c.end_byte)

-- Of chunks that tile a range, one has the byte, and what holds of all chunks holds of it.
Tiles-InChunk :
    (P : ChunkState → Type 0) (a b j : ℕ) (cs : List ChunkState)
    → Tiles a b (map state_range cs)
    → All P cs
    → a ≤ j
    → j < b
    → (c : ChunkState) × P c × InChunk j c
Tiles-InChunk P a b j [] tiles all low high = absurd (omega (arith, tiles))
Tiles-InChunk P a b j (c ∷ cs) tiles all low high = elim (dec_lt c.end_byte j) [
  | no here ↦ (c, all.0, (omega (arith, tiles.0), omega arith))
  | yes later ↦ Tiles-InChunk P (c.end_byte + 1) b j cs tiles.2 all.1 (omega arith) high
]

module _ (os : Os) (laws : Laws os) where
  -- Each byte of a chunk was covered by a call of write_at that returned.
  abbrev pub IsDone : List Piece → SparseFileWriter os → ChunkState → Type 0
  IsDone ps w c = (j : ℕ) → InChunk j c → Landed os ps w j

  -- When the calls of write_at all write the bytes of one content at their places, and each byte of
  -- each chunk of the fixed partition was covered by a call that returned, then every byte of the
  -- file is the content's, in whatever order the calls came, with whatever calls failed between
  -- them. The file has room for what the writer is for.
  pub fixed_partition-write_pieces :
      (n : ℕ) (chunk_size : ℤ) (content : ℕ → Option ℕ) (ps : List Piece) (w : SparseFileWriter os)
      (j : ℕ)
      → HasRoom os w
      → All (IsFrom content) ps
      → All (IsDone ps w) (fixed_partition n chunk_size)
      → j < n
      → os.byte (write_pieces os ps w).file j ≡ content j
  fixed_partition-write_pieces n chunk_size content ps w j room from every h =
      let (c, whole, inside) =
        Tiles-InChunk (IsDone ps w) 0 n j (fixed_partition n chunk_size)
          (fixed_partition-Tiles n chunk_size).0 every (omega arith) h in
      write_pieces-IsFrom os laws content ps w j room from (whole j inside)
