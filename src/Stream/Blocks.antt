-- ===== src/Stream/Blocks.antt =====
-- The loop over the sub-blocks, run on some bytes and then on more.
use relia_dl.Prelude.{
  Bool-cases, ℕ, zero, suc, ◌+◌, ◌≤◌, ◌<◌, ◌≡◌, ◌⊎◌, inl, inr, refl, ap, ◌∙◌, [], ◌∷◌, ◌++◌, length,
  take, drop, get_or, leb, arith, dec_le, le→leb, lt→leb_false, length-append, length-drop,
}
use relia_dl.Prelude.Results.{Error, sub_block_corrupted, ok, err, ◌>>=◌}
use relia_dl.Prelude.Text.{text_eq}
use relia_dl.Merkle.{Bytes, to_hex}
use relia_dl.Stream.Validator.{SubBlockStreamValidator, extend, check_block, check_blocks}

take-append : (n : ℕ) (xs ys : Bytes) → n ≤ length xs → take n (xs ++ ys) ≡ take n xs
take-append zero xs ys h = refl
take-append (suc n) [] ys h = absurd (omega arith)
take-append (suc n) (x ∷ xs) ys h = ap (λ l. x ∷ l) (take-append n xs ys (omega arith))

drop-append : (n : ℕ) (xs ys : Bytes) → n ≤ length xs → drop n (xs ++ ys) ≡ drop n xs ++ ys
drop-append zero xs ys h = refl
drop-append (suc n) [] ys h = absurd (omega arith)
drop-append (suc n) (x ∷ xs) ys h = drop-append n xs ys (omega arith)

module _ (sha256 : Bytes → Bytes) where
  -- What check_block does does not read the buffer and the hashed bytes, and keeps the size.
  pub check_block-cases :
      (block rest : Bytes) (v : SubBlockStreamValidator)
      → let w = record v {
        buffer = rest;
        current_sub_block_idx = v.current_sub_block_idx + 1;
        verified_sub_blocks = v.verified_sub_blocks + 1;
      } in
        ((check_block sha256 block rest v ≡ ok w)
          × ((more : Bytes)
              → check_block sha256 block (rest ++ more) (extend more v) ≡ ok (extend more w)))
        ⊎ ((e : Error) × (check_block sha256 block rest v ≡ err e)
            × ((more : Bytes) → check_block sha256 block (rest ++ more) (extend more v) ≡ err e))
  unfolding check_block extend
  check_block-cases block rest v =
      elim (Bool-cases (leb (length v.expected_sub_blocks) v.current_sub_block_idx)) [
        | inl past ↦
            inr (sub_block_corrupted v.current_sub_block_idx, rw past refl, λ more. rw past refl)
        | inr known ↦
            elim (Bool-cases (
              text_eq (to_hex (sha256 block))
                (get_or v.expected_sub_blocks v.current_sub_block_idx []))) [
                  | inl same ↦ inl (rw (known, same) refl, λ more. rw (known, same) refl)
                  | inr other ↦ inr (
                    sub_block_corrupted v.current_sub_block_idx,
                    rw (known, other) refl,
                    λ more. rw (known, other) refl,
                  )
                ]
      ]

  -- Rounds beyond the length of the buffer change nothing.
  pub check_blocks_enough :
      (n m : ℕ) (v : SubBlockStreamValidator)
      → 0 < v.sub_block_size
      → length v.buffer ≤ n
      → length v.buffer ≤ m
      → check_blocks sha256 n v ≡ check_blocks sha256 m v
  unfolding check_blocks
  check_blocks_enough zero zero v p h k = refl
  check_blocks_enough zero (suc m) v p h k =
      rw (lt→leb_false v.sub_block_size (length v.buffer) (omega arith)) refl
  check_blocks_enough (suc n) zero v p h k =
      rw (lt→leb_false v.sub_block_size (length v.buffer) (omega arith)) refl
  check_blocks_enough (suc n) (suc m) v p h k = elim (dec_le v.sub_block_size (length v.buffer)) [
    | no short ↦ rw (lt→leb_false v.sub_block_size (length v.buffer) (omega arith)) refl
    | yes full ↦
        let size = v.sub_block_size in
        let left = length-drop size v.buffer in
        elim (check_block-cases (take size v.buffer) (drop size v.buffer) v) [
          | inr (e, bad, _) ↦ rw (le→leb size (length v.buffer) full, bad) refl
          | inl (good, _) ↦
              rw (le→leb size (length v.buffer) full, good)
                (check_blocks_enough n m _ p (omega (arith, left)) (omega (arith, left)))
        ]
  ]

  pub blocks-short :
      (n : ℕ) (v : SubBlockStreamValidator)
      → length v.buffer < v.sub_block_size
      → check_blocks sha256 n v ≡ ok v
  unfolding check_blocks
  blocks-short zero v h = refl
  blocks-short (suc n) v h = rw (lt→leb_false v.sub_block_size (length v.buffer) h) refl

  pub blocks-good :
      (n : ℕ) (v w : SubBlockStreamValidator)
      → v.sub_block_size ≤ length v.buffer
      → check_block sha256 (take v.sub_block_size v.buffer) (drop v.sub_block_size v.buffer) v
        ≡ ok w
      → check_blocks sha256 (suc n) v ≡ check_blocks sha256 n w
  unfolding check_blocks
  blocks-good n v w full good = rw (le→leb v.sub_block_size (length v.buffer) full, good) refl

  pub blocks-bad :
      (n : ℕ) (v : SubBlockStreamValidator) (e : Error)
      → v.sub_block_size ≤ length v.buffer
      → check_block sha256 (take v.sub_block_size v.buffer) (drop v.sub_block_size v.buffer) v
        ≡ err e
      → check_blocks sha256 (suc n) v ≡ err e
  unfolding check_blocks
  blocks-bad n v e full bad = rw (le→leb v.sub_block_size (length v.buffer) full, bad) refl

  -- Bytes that come after a run of the loop are checked as if they had come before it.
  unfoldable pub Extends : ℕ → SubBlockStreamValidator → Bytes → Type 0
  Extends n v more = check_blocks sha256 (n + length more) (extend more v) ≡ (
      check_blocks sha256 n v >>= λ u.
      check_blocks sha256 (length u.buffer + length more) (extend more u))

  Extends-short :
      (n : ℕ) (v : SubBlockStreamValidator) (more : Bytes)
      → 0 < v.sub_block_size
      → length v.buffer ≤ n
      → length v.buffer < v.sub_block_size
      → Extends n v more
  unfolding Extends extend
  Extends-short n v more p h short =
      let size = length-append v.buffer more in
      rw (blocks-short n v short) (
        check_blocks_enough (n + length more) (length v.buffer + length more) (extend more v) p
          (omega (arith, size)) (omega (arith, size)))

  taken :
      (v : SubBlockStreamValidator) (more : Bytes)
      → v.sub_block_size ≤ length v.buffer
      → check_block sha256
          (take v.sub_block_size (v.buffer ++ more))
          (drop v.sub_block_size (v.buffer ++ more))
          (extend more v)
        ≡ check_block sha256
            (take v.sub_block_size v.buffer)
            (drop v.sub_block_size v.buffer ++ more)
            (extend more v)
  taken v more full =
      ap (λ b. check_block sha256 b (drop v.sub_block_size (v.buffer ++ more)) (extend more v))
        (take-append v.sub_block_size v.buffer more full)
      ∙ ap (λ r. check_block sha256 (take v.sub_block_size v.buffer) r (extend more v))
          (drop-append v.sub_block_size v.buffer more full)

  pub check_blocks-Extends :
      (n : ℕ) (v : SubBlockStreamValidator) (more : Bytes)
      → 0 < v.sub_block_size
      → length v.buffer ≤ n
      → Extends n v more
  unfolding Extends extend
  check_blocks-Extends zero v more p h = Extends-short zero v more p h (omega arith)
  check_blocks-Extends (suc n) v more p h = elim (dec_le v.sub_block_size (length v.buffer)) [
    | no short ↦ Extends-short (suc n) v more p h (omega arith)
    | yes full ↦
        let size = length-append v.buffer more in
        let wide : v.sub_block_size ≤ length (v.buffer ++ more) = omega (arith, size) in
        let rounds =
          ap (λ (k : ℕ). check_blocks sha256 k (extend more v)) {x = suc n + length more}
            {y = suc (n + length more)} (omega arith) in
        elim (check_block-cases (take v.sub_block_size v.buffer) (drop v.sub_block_size v.buffer)
          v) [
            | inr (e, bad, later) ↦ rw (blocks-bad n v e full bad) (
                rounds
                ∙ blocks-bad (n + length more) (extend more v) e wide
                    (taken v more full ∙ later more))
            | inl (good, later) ↦ rw (blocks-good n v _ full good) (
                rounds
                ∙ blocks-good (n + length more) (extend more v) _ wide
                    (taken v more full ∙ later more)
                ∙ check_blocks-Extends n _ more p
                    (omega (arith, length-drop v.sub_block_size v.buffer)))
          ]
  ]
