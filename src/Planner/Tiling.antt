-- ===== src/Planner/Tiling.antt =====
-- A partition of a byte interval: ranges that are not empty, each begins where the one before
-- ended.
use relia_dl.Prelude.{ℕ, ◌+◌, ◌≤◌, ◌<◌, ◌≡◌, All, List, [], ◌∷◌, ◌++◌, arith}
use mathlib.Core.Path.{subst}
use relia_dl.Models.{ChunkSpec, ChunkState}

abbrev pub Range : Type 0
Range = ℕ × ℕ

-- The inclusive ranges cover every byte from `a` up to, not including, `b`, in order and once.
abbrev pub Tiles : ℕ → ℕ → List Range → Type 0
Tiles a b [] = a ≡ b
Tiles a b (r ∷ rs) = (r.0 ≡ a) × (r.0 ≤ r.1) × Tiles (r.1 + 1) b rs

abbrev pub spec_range : ChunkSpec → Range
spec_range s = (s.start_byte, s.end_byte)

abbrev pub state_range : ChunkState → Range
state_range c = (c.start_byte, c.end_byte)

-- Chunk numbers that count up from `i`.
abbrev pub Counts : ℕ → List ℕ → Type 0
Counts i [] = Unit
Counts i (j ∷ js) = (j ≡ i) × Counts (i + 1) js

-- The same partition, with its first byte written otherwise.
pub Tiles-from : (a a' b : ℕ) (xs : List Range) → a ≡ a' → Tiles a b xs → Tiles a' b xs
Tiles-from a a' b xs e h = subst (λ n. Tiles n b xs) e h

pub Tiles-append :
    (a b c : ℕ) (xs ys : List Range) → Tiles a b xs → Tiles b c ys → Tiles a c (xs ++ ys)
Tiles-append a b c [] ys h k = rw h k
Tiles-append a b c (x ∷ xs) ys h k = (h.0, h.1, Tiles-append (x.1 + 1) b c xs ys h.2 k)

pub Tiles-le : (a b : ℕ) (xs : List Range) → Tiles a b xs → a ≤ b
Tiles-le a b [] h = omega arith
Tiles-le a b (x ∷ xs) h = omega (arith, Tiles-le (x.1 + 1) b xs h.2)

-- A range that holds a byte.
abbrev pub Holds : ℕ → Range → Type 0
Holds n r = (r.0 ≤ n) × (n ≤ r.1)

-- A byte before a partition, or behind it, is in none of its ranges.
pub Tiles-above : (n a b : ℕ) (xs : List Range) → n < a → Tiles a b xs → All (λ r. ¬ Holds n r) xs
Tiles-above n a b [] h t = tt
Tiles-above n a b (x ∷ xs) h t =
    ((λ k. omega (arith, k, t)), Tiles-above n (x.1 + 1) b xs (omega (arith, t)) t.2)

pub Tiles-below : (n a b : ℕ) (xs : List Range) → b ≤ n → Tiles a b xs → All (λ r. ¬ Holds n r) xs
Tiles-below n a b [] h t = tt
Tiles-below n a b (x ∷ xs) h t =
    ((λ k. omega (arith, k, Tiles-le (x.1 + 1) b xs t.2)), Tiles-below n (x.1 + 1) b xs h t.2)
