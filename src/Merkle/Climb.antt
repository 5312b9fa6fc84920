-- ===== src/Merkle/Climb.antt =====
-- One level of the tree at a time: from every node its audit path climbs to the top.
use native.Mathlib.Nat.{div-add-mod, mod-lt}
use relia_dl.Prelude.{
  ℕ, zero, suc, ◌+◌, ◌-◌, ◌/◌, ◌%◌, ◌<◌, ◌≤◌, ◌≡◌, ◌⊎◌, inl, inr, refl, sym, ap, ◌∙◌, List, [], ◌∷◌,
  length, get_or, arith, ltb, All, some, dec_lt, ℕ_discrete, if◌then◌else◌, lt→ltb, le→ltb_false,
}
use relia_dl.Prelude.Results.{ok}
use relia_dl.Prelude.Text.{Text}
use relia_dl.Merkle.Encoding.{Bytes, to_hex}
use relia_dl.Merkle.Tree.{
  Side, left, right, audit_step, audit_path, hash_parent, next_level, build_levels, top_of, climb,
}
use relia_dl.Merkle.Hex.{IsByte, from_hex-to_hex}

abbrev pub IsDigest : Bytes → Type 0
IsDigest b = All IsByte b

get_or-All : (xs : List Bytes) (i : ℕ) → All IsDigest xs → IsDigest (get_or xs i [])
get_or-All [] i h = tt
get_or-All (x ∷ xs) zero h = h.0
get_or-All (x ∷ xs) (suc i) h = get_or-All xs i h.1

module _ (sha256 : Bytes → Bytes) where
  length-next_level :
      (xs : List Bytes)
      → (length (next_level sha256 xs) + length (next_level sha256 xs) ≡ length xs)
        ⊎ (length (next_level sha256 xs) + length (next_level sha256 xs) ≡ length xs + 1)
  unfolding next_level
  length-next_level [] = inl (omega arith)
  length-next_level (l ∷ []) = inr (omega arith)
  length-next_level (l ∷ r ∷ rest) = ground (arith, length-next_level rest)

  -- The right neighbour, or the node itself when it is the last.
  abbrev partner : List Bytes → ℕ → Bytes
  partner xs i = get_or xs (if ltb (i + 1) (length xs) then i + 1 else i) []

  partner-inside :
      (xs : List Bytes) (i : ℕ) → i + 1 < length xs → partner xs i ≡ get_or xs (i + 1) []
  partner-inside xs i h = rw (lt→ltb (i + 1) (length xs) h) refl

  partner-cons :
      (l r : Bytes) (rest : List Bytes) (m : ℕ)
      → partner (l ∷ r ∷ rest) (suc (suc m)) ≡ partner rest m
  partner-cons l r rest m = elim (dec_lt (m + 1) (length rest)) [
    | yes inside ↦
        partner-inside (l ∷ r ∷ rest) (suc (suc m)) (omega arith)
        ∙ ap (λ j. get_or (l ∷ r ∷ rest) j []) {x = suc (suc m) + 1} {y = suc (suc (m + 1))}
            (omega arith)
        ∙ sym (partner-inside rest m inside)
    | no outside ↦
        rw
          (
            le→ltb_false (suc (suc m) + 1) (suc (suc (length rest))) (omega arith),
            le→ltb_false (m + 1) (length rest) (omega arith),
          )
          refl
  ]

  get-next_level :
      (xs : List Bytes) (k : ℕ)
      → k + k < length xs
      → get_or (next_level sha256 xs) k []
        ≡ hash_parent sha256 (get_or xs (k + k) []) (partner xs (k + k))
  unfolding next_level
  get-next_level [] k h = absurd (omega arith)
  get-next_level (l ∷ []) zero h = refl
  get-next_level (l ∷ []) (suc k) h = absurd (omega arith)
  get-next_level (l ∷ r ∷ rest) zero h =
      ap (hash_parent sha256 l) (sym (partner-inside (l ∷ r ∷ rest) 0 (omega arith)))
  get-next_level (l ∷ r ∷ rest) (suc k) h =
      get-next_level rest k (omega arith)
      ∙ ap (hash_parent sha256 (get_or rest (k + k) [])) (sym (partner-cons l r rest (k + k)))
      ∙ ap (λ (j : ℕ). hash_parent sha256 (get_or (l ∷ r ∷ rest) j []) (partner (l ∷ r ∷ rest) j))
          {x = suc (suc (k + k))} {y = suc k + suc k} (omega arith)

  module _ (sha256-IsDigest : (m : Bytes) → IsDigest (sha256 m)) where
    next_level-All : (xs : List Bytes) → All IsDigest (next_level sha256 xs)
    unfolding next_level hash_parent
    next_level-All [] = tt
    next_level-All (l ∷ []) = (sha256-IsDigest _, tt)
    next_level-All (l ∷ r ∷ rest) = (sha256-IsDigest _, next_level-All rest)

    climb-right :
        (current s : Bytes) (path : List (Text × Side))
        → IsDigest s
        → climb sha256 current ((to_hex s, right) ∷ path)
          ≡ climb sha256 (hash_parent sha256 current s) path
    unfolding climb
    climb-right current s path h = rw (from_hex-to_hex s h) refl

    climb-left :
        (current s : Bytes) (path : List (Text × Side))
        → IsDigest s
        → climb sha256 current ((to_hex s, left) ∷ path)
          ≡ climb sha256 (hash_parent sha256 s current) path
    unfolding climb
    climb-left current s path h = rw (from_hex-to_hex s h) refl

    audit_step-even :
        (xs : List Bytes) (i : ℕ) → i % 2 ≡ 0 → audit_step xs i ≡ (to_hex (partner xs i), right)
    unfolding audit_step
    audit_step-even xs i h = rw h refl

    audit_step-odd :
        (xs : List Bytes) (i : ℕ)
        → i % 2 ≡ 1
        → audit_step xs i ≡ (to_hex (get_or xs (i - 1) []), left)
    unfolding audit_step
    audit_step-odd xs i h = rw h refl

    -- One step of the climb is one level of the tree.
    climb-audit_step :
        (xs : List Bytes) (i : ℕ) (path : List (Text × Side))
        → i < length xs
        → All IsDigest xs
        → climb sha256 (get_or xs i []) (audit_step xs i ∷ path)
          ≡ climb sha256 (get_or (next_level sha256 xs) (i / 2) []) path
    climb-audit_step xs i path h digests =
        let parts = div-add-mod i 2 in
        let small : i % 2 < 2 = mod-lt i (omega arith) in
        elim (ℕ_discrete (i % 2) 0) [
          | yes even ↦
              let twice : i / 2 + i / 2 ≡ i = omega arith in
              ap (λ st. climb sha256 (get_or xs i []) (st ∷ path)) (audit_step-even xs i even)
              ∙ climb-right (get_or xs i []) (partner xs i) path (get_or-All xs _ digests)
              ∙ ap (λ p. climb sha256 p path)
                  (sym (
                    get-next_level xs (i / 2) (omega arith)
                    ∙ ap (λ j. hash_parent sha256 (get_or xs j []) (partner xs j)) twice))
          | no odd ↦
              let one : i % 2 ≡ 1 = omega arith in
              let twice : i / 2 + i / 2 ≡ i - 1 = omega arith in
              ap (λ st. climb sha256 (get_or xs i []) (st ∷ path)) (audit_step-odd xs i one)
              ∙ climb-left (get_or xs i []) (get_or xs (i - 1) []) path
                  (get_or-All xs (i - 1) digests)
              ∙ ap (λ p. climb sha256 p path)
                  (sym (
                    get-next_level xs (i / 2) (omega arith)
                    ∙ ap (λ j. hash_parent sha256 (get_or xs j []) (partner xs j)) twice
                    ∙ ap (hash_parent sha256 (get_or xs (i - 1) [])) (
                        partner-inside xs (i - 1) (omega arith)
                        ∙ ap (λ j. get_or xs j []) {x = i - 1 + 1} {y = i} (omega arith))))
        ]

    -- From a level that is not empty, with a round of fuel for each of its nodes, the levels are
    -- built, and every node's path leads to the top.
    abbrev pub Ascends : ℕ → List Bytes → Type 0
    Ascends fuel xs =
        (above : List (List Bytes)) × (build_levels sha256 fuel xs ≡ some (xs ∷ above))
        × ((i : ℕ)
            → i < length xs
            → climb sha256 (get_or xs i []) (audit_path (xs ∷ above) i)
              ≡ ok (top_of sha256 (xs ∷ above)))

    pub build_levels-Ascends :
        (fuel : ℕ) (xs : List Bytes)
        → 0 < length xs
        → length xs ≤ fuel
        → All IsDigest xs
        → Ascends fuel xs
    unfolding build_levels audit_path top_of climb
    build_levels-Ascends fuel [] some_leaf enough d = absurd (omega arith)
    build_levels-Ascends zero (l ∷ xs) some_leaf enough d = absurd (omega arith)
    build_levels-Ascends (suc fuel) (l ∷ []) some_leaf enough d =
        ([], refl, λ i h. ap (λ j. ok (get_or (l ∷ []) j [])) {x = i} {y = 0} (omega arith))
    build_levels-Ascends (suc fuel) (l ∷ r ∷ rest) some_leaf enough d =
        let next = next_level sha256 (l ∷ r ∷ rest) in
        let size = length-next_level (l ∷ r ∷ rest) in
        let half : (i : ℕ) → i % 2 < 2 = λ i. mod-lt i (omega arith) in
        let (above, built, ends) =
          build_levels-Ascends fuel next (omega (arith, size)) (omega (arith, size))
            (next_level-All (l ∷ r ∷ rest)) in
        (
          next ∷ above,
          rw built refl,
          λ i h.
              climb-audit_step (l ∷ r ∷ rest) i (audit_path (next ∷ above) (i / 2)) h d
              ∙ ends (i / 2) (omega (arith, size, div-add-mod i 2, half i)),
        )
