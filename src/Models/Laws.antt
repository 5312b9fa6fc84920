-- ===== src/Models/Laws.antt =====
-- Proofs about reliadl/models.py.
use relia_dl.Prelude.{
  ℕ, ◌+◌, ◌-◌, ◌≤◌, ◌<◌, ◌≡◌, ◌⊎◌, inl, inr, Option, none, some, refl, arith, dec_lt, ℕ_discrete,
}
use relia_dl.Prelude.Int.{ℤ, pos, negsuc, pos_part, ◌+ℤ◌, ◌-ℤ◌, ◌≤ℤ◌}
use relia_dl.Prelude.Results.{ok, err, value_error}
use relia_dl.Prelude.Text.{Text}
use relia_dl.Models.Chunk.{ChunkSpec, ChunkState, make_chunk_spec, spec, size, clean_hash}

-- What ChunkSpec accepts of a range given in naturals, with no digest.
pub make_chunk_spec_range :
    (i a b : ℕ)
    → a ≤ b
    → make_chunk_spec (pos i) (pos a) (pos b) (pos 0) none
      ≡ ok (record {
        index = i;
        start_byte = a;
        end_byte = b;
        size = b + 1 - a;
        expected_hash = none;
      })
unfolding make_chunk_spec ◌+ℤ◌ ◌-ℤ◌
make_chunk_spec_range i a b h = ground arith

abbrev clean : Option Text → Option Text
clean none = none
clean (some h) = some (clean_hash h)

-- The arguments that describe a chunk: no negative number, no end before the start, and a size that
-- is either left out (zero) or that of the inclusive range.
pub record IsRange (index start last size : ℤ) : Type 0 where
  pub index_nonneg : pos 0 ≤ℤ index
  pub start_nonneg : pos 0 ≤ℤ start
  pub ordered : start ≤ℤ last
  pub size_fits : (size ≡ pos 0) ⊎ (size ≡ (last -ℤ start) +ℤ pos 1)

abbrev pub spec_of : ℤ → ℤ → ℤ → Option Text → ChunkSpec
spec_of index start last hash = record {
  index = pos_part index;
  start_byte = pos_part start;
  end_byte = pos_part last;
  size = pos_part last + 1 - pos_part start;
  expected_hash = clean hash;
}

accepted :
    (i a b n : ℕ) (hash : Option Text)
    → a ≤ b
    → (n ≡ 0) ⊎ (n ≡ b + 1 - a)
    → make_chunk_spec (pos i) (pos a) (pos b) (pos n) hash
      ≡ ok (spec_of (pos i) (pos a) (pos b) hash)
unfolding make_chunk_spec ◌+ℤ◌ ◌-ℤ◌
accepted i a b n none h e = ground arith
accepted i a b n (some t) h e = ground arith

-- Every call of the constructor ends in one of two ways: the arguments describe a chunk and it
-- holds that range, the range's size and the cleaned digest; or they do not and ValueError is
-- raised.
pub make_chunk_spec_outcome :
    (index start last size : ℤ) (hash : Option Text)
    → (IsRange index start last size
        × (make_chunk_spec index start last size hash ≡ ok (spec_of index start last hash)))
      ⊎ ((¬ IsRange index start last size)
          × (make_chunk_spec index start last size hash ≡ err value_error))
unfolding make_chunk_spec ◌+ℤ◌ ◌-ℤ◌
make_chunk_spec_outcome (negsuc i) start last size hash =
    inr ((λ r. omega (arith, r.index_nonneg)), ground arith)
make_chunk_spec_outcome (pos i) (negsuc a) last size hash =
    inr ((λ r. omega (arith, r.start_nonneg)), ground arith)
make_chunk_spec_outcome (pos i) (pos a) (negsuc b) size hash =
    inr ((λ r. omega (arith, r.ordered)), ground arith)
make_chunk_spec_outcome (pos i) (pos a) (pos b) (negsuc n) none =
    inr ((λ r. ground (arith, r.ordered, r.size_fits)), ground arith)
make_chunk_spec_outcome (pos i) (pos a) (pos b) (negsuc n) (some h) =
    inr ((λ r. ground (arith, r.ordered, r.size_fits)), ground arith)
make_chunk_spec_outcome (pos i) (pos a) (pos b) (pos n) hash = elim (dec_lt b a) [
  | yes backward ↦ inr ((λ r. omega (arith, r.ordered)), ground arith)
  | no forward ↦ elim (ℕ_discrete n 0) [
    | yes absent ↦ inl (
      record {
        index_nonneg = omega arith;
        start_nonneg = omega arith;
        ordered = omega arith;
        size_fits = inl (ground arith);
      },
      accepted i a b n hash (omega arith) (inl absent),
    )
    | no given ↦ elim (ℕ_discrete n (b + 1 - a)) [
      | yes fits ↦ inl (
        record {
          index_nonneg = omega arith;
          start_nonneg = omega arith;
          ordered = omega arith;
          size_fits = inr (ground arith);
        },
        accepted i a b n hash (omega arith) (inr fits),
      )
      | no misfit ↦ inr ((λ r. ground (arith, r.size_fits)), ground arith)
    ]
  ]
]

size_forward :
    (c : ChunkState) → c.start_byte ≤ c.end_byte → size c ≡ pos (c.end_byte + 1 - c.start_byte)
unfolding size
size_forward c h = ground arith

backward_spec : (c : ChunkState) → c.end_byte < c.start_byte → spec c ≡ err value_error
unfolding spec size make_chunk_spec ◌+ℤ◌ ◌-ℤ◌
backward_spec c h = ground arith

-- ChunkState.spec succeeds exactly on the states whose range is not empty, and keeps index and
-- range.
spec_outcome :
    (c : ChunkState)
    → ((c.start_byte ≤ c.end_byte)
        × (spec c ≡ ok (spec_of (pos c.index) (pos c.start_byte) (pos c.end_byte) c.expected_hash)))
      ⊎ ((c.end_byte < c.start_byte) × (spec c ≡ err value_error))
unfolding spec size
spec_outcome c = elim (dec_lt c.end_byte c.start_byte) [
  | yes backward ↦ inr (backward, backward_spec c backward)
  | no forward ↦ inl (
    omega arith,
    rw (size_forward c (omega arith), spec)
        (accepted c.index c.start_byte c.end_byte (c.end_byte + 1 - c.start_byte) c.expected_hash
          (omega arith) (inr refl)),
  )
]
