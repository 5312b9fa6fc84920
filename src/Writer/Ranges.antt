-- ===== src/Writer/Ranges.antt =====
-- What the file holds after calls of write_at in any order, whatever each of them gives.
use relia_dl.Prelude.{
  ℕ, ◌+◌, ◌-◌, ◌≤◌, ◌<◌, ◌≡◌, ◌⊎◌, inl, inr, refl, ap, ◌∙◌, Option, List, [], ◌∷◌, length,
  get_elem?, arith, All,
}
use relia_dl.Prelude.Int.{ℤ, pos_part}
use relia_dl.Prelude.Results.{ok}
use relia_dl.Merkle.{Bytes}
use relia_dl.Writer.System.{Os, Laws}
use relia_dl.Writer.Ops.{SparseFileWriter, write_at}
use relia_dl.Writer.Loop.{Stored, Touched}
use relia_dl.Writer.Calls.{HasRoom, IsKept, Outcome, write_at-Outcome, write_at-Touched}

-- A call of write_at.
pub record Piece : Type 0 where
  pub offset : ℤ
  pub payload : Bytes

-- A place that a piece covers.
abbrev pub Covers : Piece → ℕ → Type 0
Covers p j = (pos_part p.offset ≤ j) × (j < pos_part p.offset + length p.payload)

-- No byte of a piece lies in a range.
abbrev pub Apart : ℕ → ℕ → Piece → Type 0
Apart off n p = (pos_part p.offset + length p.payload ≤ off) ⊎ (off + n ≤ pos_part p.offset)

-- The bytes of a piece are those of a content at its place.
abbrev pub IsFrom : (ℕ → Option ℕ) → Piece → Type 0
IsFrom content p = (j : ℕ) → Covers p j → get_elem? p.payload (j - pos_part p.offset) ≡ content j

module _ (os : Os) where
  abbrev pub write_piece : Piece → SparseFileWriter os → SparseFileWriter os
  write_piece p w = (write_at os p.offset p.payload w).1

  -- Calls one after the other; what they give is not looked at.
  abbrev pub write_pieces : List Piece → SparseFileWriter os → SparseFileWriter os
  write_pieces [] w = w
  write_pieces (p ∷ ps) w = write_pieces ps (write_piece p w)

  -- A place that a call covered which returned.
  abbrev pub Landed : List Piece → SparseFileWriter os → ℕ → Type 0
  Landed [] w j = ⊥
  Landed (p ∷ ps) w j =
      ((n : ℕ) × ((write_at os p.offset p.payload w).0 ≡ ok n) × Covers p j)
      ⊎ Landed ps (write_piece p w) j

  module _ (laws : Laws os) where
    pub write_piece-HasRoom :
        (p : Piece) (w : SparseFileWriter os) → HasRoom os w → HasRoom os (write_piece p w)
    unfolding IsKept
    write_piece-HasRoom p w room =
        let kept = (write_at-Touched os laws p.offset p.payload w room).1 in
        omega (arith, kept.0, kept.1)

    write_piece-Apart :
        (off n : ℕ) (p : Piece) (w : SparseFileWriter os) (i : ℕ)
        → HasRoom os w
        → Apart off n p
        → i < n
        → os.byte (write_piece p w).file (off + i) ≡ os.byte w.file (off + i)
    unfolding Touched
    write_piece-Apart off n p w i room apart h =
        elim ((write_at-Touched os laws p.offset p.payload w room).0 (off + i)) [
          | inl same ↦ same
          | inr (low, high, _) ↦ elim apart [
            | inl below ↦ absurd (omega arith)
            | inr above ↦ absurd (omega arith)
          ]
        ]

    write_pieces-Apart :
        (off n : ℕ) (ps : List Piece) (w : SparseFileWriter os) (i : ℕ)
        → HasRoom os w
        → All (Apart off n) ps
        → i < n
        → os.byte (write_pieces ps w).file (off + i) ≡ os.byte w.file (off + i)
    write_pieces-Apart off n [] w i room apart h = refl
    write_pieces-Apart off n (p ∷ ps) w i room apart h =
        write_pieces-Apart off n ps (write_piece p w) i (write_piece-HasRoom p w room) apart.1 h
        ∙ write_piece-Apart off n p w i room apart.0 h

    -- A byte that is right stays right.
    write_piece-right :
        (content : ℕ → Option ℕ) (p : Piece) (w : SparseFileWriter os) (j : ℕ)
        → HasRoom os w
        → IsFrom content p
        → os.byte w.file j ≡ content j
        → os.byte (write_piece p w).file j ≡ content j
    unfolding Touched
    write_piece-right content p w j room from right =
        elim ((write_at-Touched os laws p.offset p.payload w room).0 j) [
          | inl same ↦ same ∙ right
          | inr (low, high, new) ↦ new ∙ from j (low, high)
        ]

    pub write_pieces-right :
        (content : ℕ → Option ℕ) (ps : List Piece) (w : SparseFileWriter os) (j : ℕ)
        → HasRoom os w
        → All (IsFrom content) ps
        → os.byte w.file j ≡ content j
        → os.byte (write_pieces ps w).file j ≡ content j
    write_pieces-right content [] w j room from right = right
    write_pieces-right content (p ∷ ps) w j room from right =
        write_pieces-right content ps (write_piece p w) j (write_piece-HasRoom p w room) from.1
          (write_piece-right content p w j room from.0 right)

    write_piece-written :
        (content : ℕ → Option ℕ) (p : Piece) (w : SparseFileWriter os) (j n : ℕ)
        → HasRoom os w
        → IsFrom content p
        → (write_at os p.offset p.payload w).0 ≡ ok n
        → Covers p j
        → os.byte (write_piece p w).file j ≡ content j
    unfolding Stored
    write_piece-written content p w j n room from good covers =
        elim (write_at-Outcome os laws p.offset p.payload w room) [
          | inl (_, same) ↦ absurd (cc)
          | inr (_, _, Outcome.failed e io bad) ↦ absurd (cc)
          | inr (_, _, Outcome.written count there more) ↦
              ap (os.byte (write_piece p w).file) {x = j}
                {y = pos_part p.offset + (j - pos_part p.offset)} (omega arith)
              ∙ there (j - pos_part p.offset) (omega arith)
              ∙ from j covers
        ]

    -- When every call writes the bytes of one content at their places, then whatever the calls
    -- give, in whatever order they come and however they overlap, each place that a call covered
    -- which returned holds the byte of the content, in a file that has room for what the writer is
    -- for.
    pub write_pieces-IsFrom :
        (content : ℕ → Option ℕ) (ps : List Piece) (w : SparseFileWriter os) (j : ℕ)
        → HasRoom os w
        → All (IsFrom content) ps
        → Landed ps w j
        → os.byte (write_pieces ps w).file j ≡ content j
    write_pieces-IsFrom content [] w j room from landed = elim landed [ ]
    write_pieces-IsFrom content (p ∷ ps) w j room from (inl (n, good, covers)) =
        write_pieces-right content ps (write_piece p w) j (write_piece-HasRoom p w room) from.1
          (write_piece-written content p w j n room from.0 good covers)
    write_pieces-IsFrom content (p ∷ ps) w j room from (inr later) =
        write_pieces-IsFrom content ps (write_piece p w) j (write_piece-HasRoom p w room) from.1
          later

    -- A range that a call wrote holds its bytes after calls for other ranges, whatever they give.
    pub write_pieces-Stored :
        (off : ℕ) (d : Bytes) (w : SparseFileWriter os) (ps : List Piece)
        → HasRoom os w
        → Stored os d off (length d) w.file
        → All (Apart off (length d)) ps
        → Stored os d off (length d) (write_pieces ps w).file
    unfolding Stored
    write_pieces-Stored off d w ps room there apart i h =
        write_pieces-Apart off (length d) ps w i room apart h ∙ there i h

    pub write_pieces_closed :
        (ps : List Piece) (w : SparseFileWriter os)
        → HasRoom os w
        → (write_pieces ps w).is_closed ≡ w.is_closed
    unfolding IsKept
    write_pieces_closed [] w room = refl
    write_pieces_closed (p ∷ ps) w room =
        write_pieces_closed ps (write_piece p w) (write_piece-HasRoom p w room)
        ∙ (write_at-Touched os laws p.offset p.payload w room).1.2

    pub write_pieces-HasRoom :
        (ps : List Piece) (w : SparseFileWriter os) → HasRoom os w → HasRoom os (write_pieces ps w)
    write_pieces-HasRoom [] w room = room
    write_pieces-HasRoom (p ∷ ps) w room =
        write_pieces-HasRoom ps (write_piece p w) (write_piece-HasRoom p w room)
