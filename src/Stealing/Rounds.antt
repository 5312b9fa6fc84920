-- ===== src/Stealing/Rounds.antt =====
-- What the rounds of an epoch keep, and the counts behind it.
use mathlib.Core.List.{append_assoc}
use relia_dl.Prelude.{
  ℕ, ◌<◌, ◌≡◌, inl, inr, refl, sym, ap, ◌∙◌, true, false, Option, none, some, List, [], ◌∷◌, ◌++◌,
  map, arith, Bool-cases, All, if◌then◌else◌,
}
use relia_dl.Prelude.Text.{Text, text_eq}
use relia_dl.Prelude.Ids.{
  occurs, text_mem, text_mem→occurs, not_mem→occurs, occurs-snoc, occurs-cons_congr, text_eq_sound,
  true≢false,
}
use relia_dl.Stealing.Reports.{WorkerProgress, IsReport}
use relia_dl.Stealing.Bisection.{RangeBisection}
use relia_dl.Stealing.Coordinator.{Round, by_id}
use relia_dl.Stealing.Halves.{IsSplit}
use relia_dl.Stealing.Slowness.{id_of}

abbrev pub thief_of : RangeBisection → Option Text
thief_of b = b.thief_id

abbrev pub victim_of : RangeBisection → Text
victim_of b = b.victim_id

pub map-append :
    {A B : Type 0} (f : A → B) (xs ys : List A) → map f (xs ++ ys) ≡ map f xs ++ map f ys
map-append f [] ys = refl
map-append f (x ∷ xs) ys = ap (λ l. f x ∷ l) (map-append f xs ys)

pub queue-snoc :
    (bs : List RangeBisection) (b : RangeBisection) (thief : Text) (avail left idle : List Text)
    → b.thief_id ≡ some thief
    → avail ≡ thief ∷ left
    → map thief_of bs ++ map some avail ≡ map some idle
    → map thief_of (bs ++ b ∷ []) ++ map some left ≡ map some idle
queue-snoc bs b thief avail left idle given taken q =
    ap (λ l. l ++ map some left) (map-append thief_of bs (b ∷ []))
    ∙ append_assoc (map thief_of bs) (thief_of b ∷ []) (map some left)
    ∙ ap (λ o. map thief_of bs ++ o ∷ map some left) given
    ∙ ap (λ a. map thief_of bs ++ map some a) (sym taken)
    ∙ q

pub victims-snoc :
    (bs : List RangeBisection) (b : RangeBisection) (split : List Text) (t : Text)
    → occurs t (map victim_of bs) ≡ occurs t split
    → occurs t (map victim_of (bs ++ b ∷ [])) ≡ occurs t (b.victim_id ∷ split)
victims-snoc bs b split t e =
    ap (occurs t) (map-append victim_of bs (b ∷ []))
    ∙ occurs-snoc t b.victim_id (map victim_of bs)
    ∙ occurs-cons_congr t b.victim_id (map victim_of bs) split e

-- What the rounds of an epoch keep.
pub record Stage {F : Type 0} (idle : List Text) (min_split : ℕ) (s : Round F) : Type 0 where
  pub splits : All (IsSplit min_split) s.bisections
  pub queue : map thief_of s.bisections ++ map some s.available ≡ map some idle
  pub victims : (t : Text) → occurs t (map victim_of s.bisections) ≡ occurs t s.split_victims
  pub spared : (t : Text) → text_mem t idle ≡ true → occurs t s.split_victims ≡ 0

pub by_id-missing :
    {F : Type 0} (t : Text) (reports : List (WorkerProgress F))
    → text_mem t (map id_of reports) ≡ false
    → by_id t reports ≡ none
unfolding by_id text_mem
by_id-missing t [] h = refl
by_id-missing t (r ∷ rs) h = elim (Bool-cases (text_eq t r.worker_id)) [
  | inl here ↦ absurd (true≢false (rw here at h))
  | inr other ↦ rw (by_id-missing t rs (rw other at h), other) refl
]

-- The dictionary has every reported worker, with its own report.
pub by_id-found :
    {F : Type 0} (t : Text) (reports : List (WorkerProgress F))
    → All IsReport reports
    → 0 < occurs t (map id_of reports)
    → (r : WorkerProgress F) × (by_id t reports ≡ some r) × (IsReport r × (r.worker_id ≡ t))
unfolding by_id occurs
by_id-found t [] valid h = absurd (omega arith)
by_id-found t (r ∷ rs) valid h = elim (Bool-cases (text_mem t (map id_of rs))) [
  | inl later ↦
      let (q, found, fits) = by_id-found t rs valid.1 (text_mem→occurs t (map id_of rs) later) in
      (q, rw found refl, fits)
  | inr none_later ↦ elim (Bool-cases (text_eq t r.worker_id)) [
    | inl here ↦ (
      r,
      rw (by_id-missing t rs none_later, here) refl,
      (valid.0, sym (text_eq_sound t r.worker_id here)),
    )
    | inr other ↦ absurd (
        omega (
          arith,
          not_mem→occurs t (map id_of rs) none_later,
          ap {B = ℕ} (λ b. if b then 1 else 0) other,
        ))
  ]
]

-- A report that may be split: well formed, and not of an idle worker.
abbrev pub IsVictim : {F : Type 0} → List Text → WorkerProgress F → Type 0
IsVictim idle r = IsReport r × (text_mem r.worker_id idle ≡ false)

-- An identifier outside `set` put in front adds nothing to the count of one inside it.
pub occurs_spared :
    (set : List Text) (a : Text) (s : List Text) (t : Text)
    → text_mem a set ≡ false
    → text_mem t set ≡ true
    → occurs t s ≡ 0
    → occurs t (a ∷ s) ≡ 0
unfolding occurs
occurs_spared set a s t out there zero_times = elim (Bool-cases (text_eq t a)) [
  | inl same ↦
      absurd (true≢false (sym there ∙ ap (λ u. text_mem u set) (text_eq_sound t a same) ∙ out))
  | inr other ↦ rw other (omega (arith, zero_times))
]
