-- ===== src/Prelude/Ids.antt =====
-- Identifiers in lists: a set or a dictionary of identifiers is a list, and what a key occurs is a
-- number, so that `omega` decides who is in which list.
use relia_dl.Prelude.{
  ℕ, ◌+◌, ◌≤◌, ◌<◌, ◌≡◌, refl, sym, ap, ◌∙◌, Bool, true, false, List, [], ◌∷◌, ◌++◌, arith, ==_true,
  ==_false, ℕ_discrete, if◌then◌else◌, Bool-cases, inl, inr,
}
use relia_dl.Prelude.Text.{Text, text_eq}

pub true≢false : ¬ (true ≡ false)
true≢false e = absurd (omega (arith, ap {B = ℕ} (λ b. if b then 1 else 0) e))

pub text_eq_self : (t : Text) → text_eq t t ≡ true
unfolding text_eq
text_eq_self [] = refl
text_eq_self (c ∷ t) = rw (==_true c c refl, text_eq_self t) refl

pub text_eq_sound : (s t : Text) → text_eq s t ≡ true → s ≡ t
unfolding text_eq
text_eq_sound [] [] h = refl
text_eq_sound [] (b ∷ t) h = absurd (true≢false (sym h))
text_eq_sound (a ∷ s) [] h = absurd (true≢false (sym h))
text_eq_sound (a ∷ s) (b ∷ t) h = elim (ℕ_discrete a b) [
  | yes same ↦ let tail = text_eq_sound s t (rw (==_true a b same) at h) in rw (same, tail) refl
  | no other ↦ absurd (true≢false (sym (rw (==_false a b other) at h)))
]

-- How often an identifier stands in a list.
unfoldable pub occurs : Text → List Text → ℕ
occurs a [] = 0
occurs a (b ∷ bs) = (if text_eq a b then 1 else 0) + occurs a bs

-- `a in bs`
unfoldable pub text_mem : Text → List Text → Bool
text_mem a [] = false
text_mem a (b ∷ bs) = let rest = text_mem a bs in if text_eq a b then true else rest

abbrev pub Distinct : List Text → Type 0
Distinct ids = (a : Text) → occurs a ids ≤ 1

pub occurs-append : (a : Text) (xs ys : List Text) → occurs a (xs ++ ys) ≡ occurs a xs + occurs a ys
unfolding occurs
occurs-append a [] ys = omega arith
occurs-append a (x ∷ xs) ys = omega (arith, occurs-append a xs ys)

pub text_mem→occurs : (a : Text) (xs : List Text) → text_mem a xs ≡ true → 0 < occurs a xs
unfolding text_mem occurs
text_mem→occurs a [] h = absurd (true≢false (sym h))
text_mem→occurs a (x ∷ xs) h = elim (Bool-cases (text_eq a x)) [
  | inl here ↦ rw here (omega arith)
  | inr there ↦ ground (arith, text_mem→occurs a xs)
]

pub not_mem→occurs : (a : Text) (xs : List Text) → text_mem a xs ≡ false → occurs a xs ≡ 0
unfolding text_mem occurs
not_mem→occurs a [] h = refl
not_mem→occurs a (x ∷ xs) h = elim (Bool-cases (text_eq a x)) [
  | inl here ↦ ground arith
  | inr there ↦ ground (arith, not_mem→occurs a xs)
]

pub Distinct-cons :
    (a : Text) (xs : List Text) → text_mem a xs ≡ false → Distinct xs → Distinct (a ∷ xs)
unfolding occurs
Distinct-cons a xs fresh d t = elim (Bool-cases (text_eq t a)) [
  | inl same ↦
      let there : occurs t xs ≡ 0 =
        ap (λ u. occurs u xs) (text_eq_sound t a same) ∙ not_mem→occurs a xs fresh in
      rw same (omega (arith, there))
  | inr other ↦ rw other (omega (arith, d t))
]

pub occurs_self : (a : Text) (xs : List Text) → occurs a (a ∷ xs) ≡ 1 + occurs a xs
unfolding occurs
occurs_self a xs = rw (text_eq_self a) refl

pub occurs-snoc : (a x : Text) (xs : List Text) → occurs a (xs ++ x ∷ []) ≡ occurs a (x ∷ xs)
unfolding occurs
occurs-snoc a x xs = omega (arith, occurs-append a xs (x ∷ []))

-- Putting the same identifier in front keeps an equality of counts, and an order.
pub occurs-cons_congr :
    (a x : Text) (xs ys : List Text)
    → occurs a xs ≡ occurs a ys
    → occurs a (x ∷ xs) ≡ occurs a (x ∷ ys)
unfolding occurs
occurs-cons_congr a x xs ys e = omega (arith, e)

pub occurs-cons :
    (a x : Text) (xs : List Text) → occurs a (x ∷ xs) ≡ occurs a (x ∷ []) + occurs a xs
unfolding occurs
occurs-cons a x xs = omega arith
