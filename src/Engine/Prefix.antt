-- ===== src/Engine/Prefix.antt =====
-- The verified prefix of a chunk: it grows, inside the chunk, or is forgotten.
use relia_dl.Prelude.{
  ℕ, ◌+◌, ◌*◌, ◌/◌, ◌≤◌, ◌<◌, ◌≡◌, ◌⊎◌, inl, inr, refl, min, Option, none, some, arith, dec_le,
  lt→leb_false, le→leb,
}
use relia_dl.Prelude.Int.{pos_part, sub_ℕ}
use relia_dl.Prelude.Results.{Error, sub_block_corrupted}
use relia_dl.Models.{ChunkState, size}
use relia_dl.Engine.Fetch.{resume_of}
use relia_dl.Engine.Retry.{record_verified_prefix}

-- A verified prefix that ends inside the chunk.
unfoldable pub IsPrefix : ChunkState → Option ℕ → Type 0
IsPrefix c p = c.start_byte + resume_of p ≤ c.end_byte + 1

-- The new prefix after a bad sub-block: none, or one that is longer, ends inside the chunk, and
-- holds no byte of the bad block or after it.
unfoldable pub IsLonger : ℕ → ChunkState → Option ℕ → ℕ → Option ℕ → Type 0
IsLonger block_size c p block q =
    (q ≡ none)
    ⊎ ((n : ℕ) × (q ≡ some n)
        × (resume_of p < n)
        × (c.start_byte + n ≤ c.end_byte + 1)
        × (n ≤ (resume_of p / block_size + block) * block_size))

pos_part-sub_ℕ : (a b : ℕ) → b ≤ a → b + pos_part (sub_ℕ a b) ≡ a
pos_part-sub_ℕ a b h = rw (le→leb b a h) (omega arith)

-- After a bad sub-block the verified prefix of a chunk is forgotten or is longer than before, ends
-- inside the chunk and before the bad block. The prefix before ends inside the chunk.
pub record_verified_prefix-IsLonger :
    (block_size : ℕ) (c : ChunkState) (block : ℕ) (p : Option ℕ)
    → IsPrefix c p
    → IsLonger block_size c p block
        (record_verified_prefix block_size c (sub_block_corrupted block) p)
unfolding IsPrefix IsLonger record_verified_prefix size
record_verified_prefix-IsLonger block_size c block p h =
    let most = (resume_of p / block_size + block) * block_size in
    let room = pos_part (sub_ℕ (c.end_byte + 1) c.start_byte) in
    let n = min most room in
    let fits = pos_part-sub_ℕ (c.end_byte + 1) c.start_byte (omega arith) in
    elim (dec_le n (resume_of p)) [
      | yes less ↦ inl (rw (le→leb n (resume_of p) less) refl)
      | no more ↦ inr (
        n,
        rw (lt→leb_false n (resume_of p) (omega arith)) refl,
        omega arith,
        omega (arith, fits),
        omega arith,
      )
    ]

pub record_verified_prefix-IsPrefix :
    (block_size : ℕ) (c : ChunkState) (e : Error) (p : Option ℕ)
    → IsPrefix c p
    → IsPrefix c (record_verified_prefix block_size c e p)
unfolding IsPrefix IsLonger record_verified_prefix
record_verified_prefix-IsPrefix block_size c (sub_block_corrupted block) p h =
    elim (record_verified_prefix-IsLonger block_size c block p h) [
      | inl gone ↦ rw gone (omega arith)
      | inr (n, longer, grown, inside, before) ↦ rw longer inside
    ]
record_verified_prefix-IsPrefix block_size c e p h = omega arith
