-- ===== src/Stream/Segments.antt =====
-- How the bytes of a stream are cut into calls of update does not matter.
use mathlib.Core.List.{append_assoc, append-nil}
use relia_dl.Prelude.{
  ℕ, zero, suc, ◌+◌, ◌-◌, ◌<◌, ◌≡◌, ◌⊎◌, inl, inr, refl, sym, ap, ◌∙◌, false, List, [], ◌∷◌, ◌++◌,
  length, take, drop, arith, dec_le, length-append,
}
use relia_dl.Prelude.Results.{Error, Result, ok, err, raise_if, value_error, ◌>>=◌, ◌>>◌}
use relia_dl.Merkle.{Bytes}
use relia_dl.Stream.Validator.{SubBlockStreamValidator, extend, check_blocks, update, feed}
use relia_dl.Stream.Blocks.{
  check_blocks-Extends, Extends, blocks-short, blocks-good, blocks-bad, check_block-cases,
}

abbrev pub concat : List Bytes → Bytes
concat [] = []
concat (p ∷ ps) = p ++ concat ps

-- A validator with the number that update returns.
abbrev with_count :
    (SubBlockStreamValidator → ℕ) → SubBlockStreamValidator → Result (ℕ × SubBlockStreamValidator)
with_count f w = ok (f w, w)

abbrev second :
    (SubBlockStreamValidator → Result SubBlockStreamValidator)
    → ℕ × SubBlockStreamValidator
    → Result SubBlockStreamValidator
second k r = k r.1

bind_state :
    (m : Result SubBlockStreamValidator) (f : SubBlockStreamValidator → ℕ)
    (k : SubBlockStreamValidator → Result SubBlockStreamValidator)
    → ((m >>= with_count f) >>= second k) ≡ (m >>= k)
bind_state (ok w) f k = refl
bind_state (err e) f k = refl

bind-ok : (m : Result SubBlockStreamValidator) → (m >>= λ w. ok w) ≡ m
bind-ok (ok w) = refl
bind-ok (err e) = refl

extend-extend :
    (p q : Bytes) (v : SubBlockStreamValidator) → extend q (extend p v) ≡ extend (p ++ q) v
unfolding extend
extend-extend p q v =
    let size : v.total_bytes_processed + length p + length q
        ≡ v.total_bytes_processed + length (p ++ q) =
      omega (arith, length-append p q) in
    rw (append_assoc v.buffer p q, append_assoc v.hashed p q, size) refl

module _ (sha256 : Bytes → Bytes) where
  -- Fields that the loop does not change.
  IsKept : SubBlockStreamValidator → SubBlockStreamValidator → Type 0
  IsKept v w = (w.is_finalized ≡ v.is_finalized) × (w.sub_block_size ≡ v.sub_block_size)

  -- A run of the loop: a validator with the same settings, or an exception.
  abbrev Outcome : Result SubBlockStreamValidator → SubBlockStreamValidator → Type 0
  Outcome r v =
      ((w : SubBlockStreamValidator) × (r ≡ ok w) × IsKept v w) ⊎ ((e : Error) × (r ≡ err e))

  -- The validator after the block at the front of its buffer has passed.
  abbrev advanced : SubBlockStreamValidator → SubBlockStreamValidator
  advanced v = record v {
    buffer = drop v.sub_block_size v.buffer;
    current_sub_block_idx = v.current_sub_block_idx + 1;
    verified_sub_blocks = v.verified_sub_blocks + 1;
  }

  check_blocks-Outcome : (n : ℕ) (v : SubBlockStreamValidator) → Outcome (check_blocks sha256 n v) v
  unfolding IsKept check_blocks
  check_blocks-Outcome zero v = inl (v, refl, (refl, refl))
  check_blocks-Outcome (suc n) v = elim (dec_le v.sub_block_size (length v.buffer)) [
    | no short ↦ inl (v, blocks-short sha256 (suc n) v (omega arith), (refl, refl))
    | yes full ↦
        elim (check_block-cases sha256 (take v.sub_block_size v.buffer)
          (drop v.sub_block_size v.buffer) v) [
            | inr (e, bad, _) ↦ inr (e, blocks-bad sha256 n v e full bad)
            | inl (good, _) ↦ elim (check_blocks-Outcome n (advanced v)) [
              | inl (w, run, kept) ↦
                  inl (w, blocks-good sha256 n v (advanced v) full good ∙ run, kept)
              | inr (e, bad) ↦ inr (e, blocks-good sha256 n v (advanced v) full good ∙ bad)
            ]
          ]
  ]

  -- A call of update with some bytes, and what follows it.
  update-check_blocks :
      (b : ℕ) (bs : Bytes) (v : SubBlockStreamValidator)
      (k : SubBlockStreamValidator → Result SubBlockStreamValidator)
      → v.is_finalized ≡ false
      → (update sha256 (b ∷ bs) v >>= second k)
        ≡ (check_blocks sha256 (length (v.buffer ++ b ∷ bs)) (extend (b ∷ bs) v) >>= k)
  unfolding update extend
  update-check_blocks b bs v k open_still =
      let count = with_count (λ w. w.verified_sub_blocks - v.verified_sub_blocks) in
      let run = check_blocks sha256 (length (v.buffer ++ b ∷ bs)) (extend (b ∷ bs) v) in
      ap (λ f. (raise_if f value_error >> (run >>= count)) >>= second k) open_still
      ∙ bind_state run (λ w. w.verified_sub_blocks - v.verified_sub_blocks) k

  feed-one :
      (p : Bytes) (v : SubBlockStreamValidator)
      → v.is_finalized ≡ false
      → 0 < length p
      → feed sha256 (p ∷ []) v ≡ check_blocks sha256 (length (v.buffer ++ p)) (extend p v)
  unfolding feed
  feed-one [] v fresh some_byte = absurd (omega arith)
  feed-one (b ∷ bs) v fresh some_byte =
      update-check_blocks b bs v (λ w. ok w) fresh
      ∙ bind-ok (check_blocks sha256 (length (v.buffer ++ b ∷ bs)) (extend (b ∷ bs) v))

  -- A first call with some bytes, and the calls after it.
  feed-check_blocks :
      (b : ℕ) (bs : Bytes) (ps : List Bytes) (v : SubBlockStreamValidator)
      → v.is_finalized ≡ false
      → feed sha256 ((b ∷ bs) ∷ ps) v
        ≡ (check_blocks sha256 (length (v.buffer ++ b ∷ bs)) (extend (b ∷ bs) v) >>= feed sha256 ps)
  unfolding feed
  feed-check_blocks b bs ps v fresh = update-check_blocks b bs v (feed sha256 ps) fresh

  feed-nil :
      (ps : List Bytes) (v : SubBlockStreamValidator)
      → v.is_finalized ≡ false
      → feed sha256 ([] ∷ ps) v ≡ feed sha256 ps v
  unfolding feed update
  feed-nil ps v fresh =
      ap (λ f. (raise_if f value_error >> ok (0, v)) >>= second (feed sha256 ps)) fresh

  check_blocks-two :
      (p q : Bytes) (v : SubBlockStreamValidator)
      → 0 < v.sub_block_size
      → check_blocks sha256 (length (v.buffer ++ (p ++ q))) (extend (p ++ q) v) ≡ (
          check_blocks sha256 (length (v.buffer ++ p)) (extend p v) >>= λ u.
          check_blocks sha256 (length u.buffer + length q) (extend q u))
  unfolding Extends extend
  check_blocks-two p q v pos =
      ap (λ k. check_blocks sha256 k (extend (p ++ q) v))
        (omega
          (arith, length-append v.buffer (p ++ q), length-append p q, length-append v.buffer p))
      ∙ ap (check_blocks sha256 (length (v.buffer ++ p) + length q)) (sym (extend-extend p q v))
      ∙ check_blocks-Extends sha256 (length (v.buffer ++ p)) (extend p v) q pos (omega arith)

  extend-IsKept : (p : Bytes) (v w : SubBlockStreamValidator) → IsKept (extend p v) w → IsKept v w
  unfolding IsKept extend
  extend-IsKept p v w k = k

  kept_fresh :
      (v w : SubBlockStreamValidator) → IsKept v w → v.is_finalized ≡ false → w.is_finalized ≡ false
  unfolding IsKept
  kept_fresh v w k fresh = k.0 ∙ fresh

  kept_pos :
      (v w : SubBlockStreamValidator) → IsKept v w → 0 < v.sub_block_size → 0 < w.sub_block_size
  unfolding IsKept
  kept_pos v w k pos = omega (arith, k.1)

  feed-two :
      (b : ℕ) (bs q : Bytes) (v : SubBlockStreamValidator)
      → 0 < v.sub_block_size
      → v.is_finalized ≡ false
      → 0 < length q
      → feed sha256 ((b ∷ bs) ∷ q ∷ []) v ≡ feed sha256 ((b ∷ bs ++ q) ∷ []) v
  feed-two b bs q v pos fresh some_q =
      let start = extend (b ∷ bs) v in
      let run = check_blocks sha256 (length (v.buffer ++ b ∷ bs)) start in
      let later = λ (u : SubBlockStreamValidator).
        check_blocks sha256 (length u.buffer + length q) (extend q u) in
      let one : feed sha256 ((b ∷ bs ++ q) ∷ []) v ≡ (run >>= later) =
        feed-one (b ∷ bs ++ q) v fresh (omega arith) ∙ check_blocks-two (b ∷ bs) q v pos in
      let two : feed sha256 ((b ∷ bs) ∷ q ∷ []) v ≡ (run >>= feed sha256 (q ∷ [])) =
        feed-check_blocks b bs (q ∷ []) v fresh in
      elim (check_blocks-Outcome (length (v.buffer ++ b ∷ bs)) start) [
        | inr (e, bad) ↦
            two ∙ ap (λ m. m >>= feed sha256 (q ∷ [])) bad ∙ sym (one ∙ ap (λ m. m >>= later) bad)
        | inl (w, good, kept) ↦
            two
            ∙ ap (λ m. m >>= feed sha256 (q ∷ [])) good
            ∙ feed-one q w (kept_fresh v w (extend-IsKept (b ∷ bs) v w kept) fresh) some_q
            ∙ ap (λ k. check_blocks sha256 k (extend q w)) (length-append w.buffer q)
            ∙ sym (one ∙ ap (λ m. m >>= later) good)
      ]

  feed-join :
      (b : ℕ) (bs q : Bytes) (v : SubBlockStreamValidator)
      → 0 < v.sub_block_size
      → v.is_finalized ≡ false
      → feed sha256 ((b ∷ bs) ∷ q ∷ []) v ≡ feed sha256 ((b ∷ bs ++ q) ∷ []) v
  feed-join b bs (c ∷ cs) v pos fresh = feed-two b bs (c ∷ cs) v pos fresh (omega arith)
  feed-join b bs [] v pos fresh =
      let start = extend (b ∷ bs) v in
      let whole : feed sha256 ((b ∷ bs ++ []) ∷ []) v ≡ feed sha256 ((b ∷ bs) ∷ []) v =
        ap (λ l. feed sha256 ((b ∷ l) ∷ []) v) (append-nil bs) in
      elim (check_blocks-Outcome (length (v.buffer ++ b ∷ bs)) start) [
        | inr (e, bad) ↦
            feed-check_blocks b bs ([] ∷ []) v fresh
            ∙ ap (λ m. m >>= feed sha256 ([] ∷ [])) bad
            ∙ sym (whole ∙ feed-check_blocks b bs [] v fresh ∙ ap (λ m. m >>= feed sha256 []) bad)
        | inl (w, good, kept) ↦
            feed-check_blocks b bs ([] ∷ []) v fresh
            ∙ ap (λ m. m >>= feed sha256 ([] ∷ [])) good
            ∙ feed-nil [] w (kept_fresh v w (extend-IsKept (b ∷ bs) v w kept) fresh)
            ∙ sym (whole ∙ feed-check_blocks b bs [] v fresh ∙ ap (λ m. m >>= feed sha256 []) good)
      ]

  -- However the bytes of a stream are cut into calls of update, empty ones included, a validator
  -- that is not finalized and has sub-blocks of at least one byte ends as after one call with all
  -- of them: in the same state, or with the same exception.
  pub feed-concat :
      (ps : List Bytes) (v : SubBlockStreamValidator)
      → 0 < v.sub_block_size
      → v.is_finalized ≡ false
      → feed sha256 ps v ≡ feed sha256 (concat ps ∷ []) v
  feed-concat [] v pos fresh = sym (feed-nil [] v fresh)
  feed-concat ([] ∷ ps) v pos fresh = feed-nil ps v fresh ∙ feed-concat ps v pos fresh
  feed-concat ((b ∷ bs) ∷ ps) v pos fresh =
      let start = extend (b ∷ bs) v in
      elim (check_blocks-Outcome (length (v.buffer ++ b ∷ bs)) start) [
        | inr (e, bad) ↦
            feed-check_blocks b bs ps v fresh
            ∙ ap (λ m. m >>= feed sha256 ps) bad
            ∙ sym (
                feed-check_blocks b bs (concat ps ∷ []) v fresh
                ∙ ap (λ m. m >>= feed sha256 (concat ps ∷ [])) bad)
            ∙ feed-join b bs (concat ps) v pos fresh
        | inl (w, good, kept) ↦
            let k = extend-IsKept (b ∷ bs) v w kept in
            feed-check_blocks b bs ps v fresh
            ∙ ap (λ m. m >>= feed sha256 ps) good
            ∙ feed-concat ps w (kept_pos v w k pos) (kept_fresh v w k fresh)
            ∙ sym (
                feed-check_blocks b bs (concat ps ∷ []) v fresh
                ∙ ap (λ m. m >>= feed sha256 (concat ps ∷ [])) good)
            ∙ feed-join b bs (concat ps) v pos fresh
      ]
