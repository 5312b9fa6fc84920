-- ===== src/Prelude/Sort.antt =====
-- Python's `sorted(items, key=..., reverse=True)`: largest first, and stable. `below a b` is the
-- comparison `key(a) < key(b)`.
use relia_dl.Prelude.{
  All, ◌≡◌, refl, Bool, List, [], ◌∷◌, map, arith, if◌then◌else◌, Bool-cases, inl, inr,
}
use relia_dl.Prelude.Text.{Text}
use relia_dl.Prelude.Ids.{occurs}

module _ {A : Type 0} (below : A → A → Bool) where
  unfoldable pub insert_desc : A → List A → List A
  insert_desc a [] = a ∷ []
  insert_desc a (b ∷ bs) = let more = insert_desc a bs in if below a b then b ∷ more else a ∷ b ∷ bs

  unfoldable pub sort_desc : List A → List A
  unfolding insert_desc
  sort_desc [] = []
  sort_desc (a ∷ rest) = insert_desc a (sort_desc rest)

  abbrev ids_of : (A → Text) → List A → List Text
  ids_of key rest = map key rest

  -- A measure that adds over the items does not see the order.
  occurs-insert_desc :
      (key : A → Text) (t : Text) (a : A) (rest : List A)
      → occurs t (map key (insert_desc a rest)) ≡ occurs t (key a ∷ map key rest)
  unfolding insert_desc occurs
  occurs-insert_desc key t a [] = refl
  occurs-insert_desc key t a (b ∷ bs) = elim (Bool-cases (below a b)) [
    | inl less ↦ rw less (omega (arith, occurs-insert_desc key t a bs))
    | inr more ↦ rw more refl
  ]

  pub occurs-sort_desc :
      (key : A → Text) (t : Text) (rest : List A)
      → occurs t (map key (sort_desc rest)) ≡ occurs t (map key rest)
  unfolding sort_desc occurs
  occurs-sort_desc key t [] = refl
  occurs-sort_desc key t (a ∷ rest) =
      omega (arith, occurs-insert_desc key t a (sort_desc rest), occurs-sort_desc key t rest)

  All-insert_desc :
      (P : A → Type 0) (a : A) (rest : List A) → P a → All P rest → All P (insert_desc a rest)
  unfolding insert_desc
  All-insert_desc P a [] p ps = (p, tt)
  All-insert_desc P a (b ∷ bs) p ps = elim (Bool-cases (below a b)) [
    | inl less ↦ rw less (ps.0, All-insert_desc P a bs p ps.1)
    | inr more ↦ rw more (p, ps)
  ]

  pub All-sort_desc : (P : A → Type 0) (rest : List A) → All P rest → All P (sort_desc rest)
  unfolding sort_desc
  All-sort_desc P [] ps = tt
  All-sort_desc P (a ∷ rest) ps =
      All-insert_desc P a (sort_desc rest) ps.0 (All-sort_desc P rest ps.1)
