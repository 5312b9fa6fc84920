-- ===== src/Stealing/Slowness.antt =====
-- The straggler predicate: what being flagged means.
use relia_dl.Prelude.{
  ◌+◌, ◌*◌, ◌≤◌, ◌<◌, ◌≡◌, ◌≢◌, ◌⊎◌, inl, inr, refl, sym, ap, true, false, Option, none, some, List,
  [], ◌∷◌, map, arith, Bool-cases, Option-cases, ltb, Any,
}
use relia_dl.Prelude.Results.{ok, err, configuration_error}
use relia_dl.Prelude.Text.{Text, text_eq}
use relia_dl.Prelude.Ids.{
  occurs, Distinct, text_mem, text_mem→occurs, occurs_self, Distinct-cons, true≢false,
}
use relia_dl.Prelude.Sort.{sort_desc, occurs-sort_desc}
use relia_dl.Stealing.Numbers.{Floats}
use relia_dl.Stealing.Reports.{
  WorkerProgress, bytes_remaining, is_complete, is_active, projected, ttc_seconds,
}
use relia_dl.Stealing.Detector.{
  StragglerVerdict, StragglerDetector, check_unique, min_remaining_bytes, candidates, least,
  baseline_ttc, judge, evaluate_one, evaluate, flagged, detect, key_below, validate_reports,
}

pub no_occurs : (t : Text) → occurs t [] ≡ 0
unfolding occurs
no_occurs t = refl

pub no_ids-Distinct : Distinct []
no_ids-Distinct t = omega (arith, no_occurs t)

module _ {F : Type 0} where
  abbrev pub id_of : WorkerProgress F → Text
  id_of r = r.worker_id

  abbrev pub verdict_id : StragglerVerdict F → Text
  verdict_id v = v.worker_id

  -- The reports are told apart, or the second report of a worker is refused.
  check_unique_outcome :
      (seen : List Text) (rs : List (WorkerProgress F))
      → Distinct seen
      → (((t : Text) → occurs t seen + occurs t (map id_of rs) ≤ 1)
          × (check_unique seen rs ≡ ok tt))
        ⊎ (((t : Text) × (1 < occurs t seen + occurs t (map id_of rs)))
            × (check_unique seen rs ≡ err (configuration_error "reports")))
  unfolding check_unique occurs
  check_unique_outcome seen [] d = inl ((λ t. omega (arith, d t)), refl)
  check_unique_outcome seen (r ∷ rs) d = elim (Bool-cases (text_mem r.worker_id seen)) [
    | inl again ↦ inr (
      (
        r.worker_id,
        omega
            (arith, occurs_self r.worker_id (map id_of rs), text_mem→occurs r.worker_id seen again),
      ),
      rw again refl,
    )
    | inr fresh ↦
        elim (check_unique_outcome (r.worker_id ∷ seen) rs
          (Distinct-cons r.worker_id seen fresh d)) [
            | inl (once, fine) ↦ inl ((λ t. omega (arith, once t)), rw fresh fine)
            | inr ((t, twice), bad) ↦ inr ((t, omega (arith, twice)), rw fresh bad)
          ]
  ]

  flagged-occurs :
      (t : Text) (vs : List (StragglerVerdict F))
      → occurs t (map verdict_id (flagged vs)) ≤ occurs t (map verdict_id vs)
  unfolding flagged occurs
  flagged-occurs t [] = omega arith
  flagged-occurs t (v ∷ vs) = elim (Bool-cases v.is_straggler) [
    | inl slow ↦ rw slow (omega (arith, flagged-occurs t vs))
    | inr fine ↦ rw fine (omega (arith, flagged-occurs t vs))
  ]

  module _ (fl : Floats F) where
    pub judge_id :
        (d : StragglerDetector F) (r : WorkerProgress F) (t : F) (b : Option F)
        → (judge fl d r t b).worker_id ≡ r.worker_id
    unfolding judge
    judge_id d r t none = refl
    judge_id d r t (some b) = refl

    evaluate_id :
        (d : StragglerDetector F) (reports : List (WorkerProgress F)) (r : WorkerProgress F)
        → (evaluate_one fl d reports r).worker_id ≡ r.worker_id
    unfolding evaluate_one
    evaluate_id d reports r = elim (Bool-cases (is_complete r)) [
      | inl done ↦ rw done refl
      | inr left ↦ elim (Option-cases r.throughput_bps) [
        | inl none_yet ↦ rw (left, none_yet) refl
        | inr (v, rate) ↦
            rw (left, rate)
              (judge_id d r (projected fl r v) (baseline_ttc fl reports (some r.worker_id)))
      ]
    ]

    evaluate-ids :
        (d : StragglerDetector F) (all rs : List (WorkerProgress F))
        → map verdict_id (map (evaluate_one fl d all) rs) ≡ map id_of rs
    evaluate-ids d all [] = refl
    evaluate-ids d all (r ∷ rs) = rw (evaluate_id d all r, evaluate-ids d all rs) refl

    -- Detection fails exactly when two reports are of one worker; otherwise every worker it flags
    -- is reported, and no more often than it is reported.
    pub detect_outcome :
        (d : StragglerDetector F) (reports : List (WorkerProgress F))
        → (Distinct (map id_of reports)
            × ((vs : List (StragglerVerdict F)) × (detect fl d reports ≡ ok vs)
                × ((t : Text) → occurs t (map verdict_id vs) ≤ occurs t (map id_of reports))))
          ⊎ ((¬ Distinct (map id_of reports))
              × (detect fl d reports ≡ err (configuration_error "reports")))
    unfolding detect evaluate validate_reports
    detect_outcome d reports = elim (check_unique_outcome [] reports no_ids-Distinct) [
      | inl (once, fine) ↦
          let all = map (evaluate_one fl d reports) reports in
          inl (
            (λ t. omega (arith, once t, no_occurs t)),
            (
              sort_desc (key_below fl) (flagged all),
              rw fine refl,
              λ t. omega (
                arith,
                occurs-sort_desc (key_below fl) verdict_id t (flagged all),
                flagged-occurs t all,
                ap (occurs t) (evaluate-ids d reports reports),
              ),
            ),
          )
      | inr ((t, twice), bad) ↦ inr ((λ d. absurd (omega (arith, d t, no_occurs t))), rw bad refl)
    ]

    -- Another worker that is active, whose projection times the factor is below `ttc`.
    abbrev pub IsFaster : F → WorkerProgress F → F → WorkerProgress F → Type 0
    IsFaster factor r ttc p =
        (is_active p ≡ true)
        × (text_eq p.worker_id r.worker_id ≡ false)
        × ((t : F) × (ttc_seconds fl p ≡ some t) × (fl.below (fl.times factor t) ttc ≡ true))

    candidates-Any :
        (r : WorkerProgress F) (factor ttc : F) (reports : List (WorkerProgress F))
        → Any
            (λ t. fl.below (fl.times factor t) ttc ≡ true)
            (candidates fl reports (some r.worker_id))
        → Any (IsFaster factor r ttc) reports
    unfolding candidates
    candidates-Any r factor ttc [] h = elim h [ ]
    candidates-Any r factor ttc (p ∷ ps) h = elim (Bool-cases (is_active p)) [
      | inr idle ↦ inr (candidates-Any r factor ttc ps (rw idle at h))
      | inl active ↦ elim (Bool-cases (text_eq p.worker_id r.worker_id)) [
        | inl same ↦ inr (candidates-Any r factor ttc ps (rw (active, same) at h))
        | inr other ↦ elim (Option-cases (ttc_seconds fl p)) [
          | inl unknown ↦ inr (candidates-Any r factor ttc ps (rw (active, other, unknown) at h))
          | inr (t, known) ↦ elim (rw (active, other, known) at h) [
            | inl below ↦ inl (active, other, (t, known, below))
            | inr later ↦ inr (candidates-Any r factor ttc ps later)
          ]
        ]
      ]
    ]

    least-Any : (P : F → Type 0) (best : F) (ts : List F) → P (least fl best ts) → Any P (best ∷ ts)
    unfolding least
    least-Any P best [] h = inl h
    least-Any P best (t ∷ ts) h = elim (Bool-cases (fl.below t best)) [
      | inl less ↦ inr (least-Any P t ts (rw less at h))
      | inr more ↦ elim (least-Any P best ts (rw more at h)) [
        | inl here ↦ inl here
        | inr later ↦ inr (inr later)
      ]
    ]

    judge_passes :
        (d : StragglerDetector F) (r : WorkerProgress F) (ttc b : F)
        → (judge fl d r ttc (some b)).is_straggler ≡ true
        → (fl.below (fl.times d.factor b) ttc ≡ true) × (min_remaining_bytes d ≤ bytes_remaining r)
    unfolding judge
    judge_passes d r ttc b h = elim (Bool-cases (fl.below (fl.times d.factor b) ttc)) [
      | inr near ↦ absurd (true≢false (sym (rw near at h)))
      | inl slow ↦ elim (Bool-cases (ltb (bytes_remaining r) (min_remaining_bytes d))) [
        | inl short ↦ absurd (true≢false (sym (rw (slow, short) at h)))
        | inr wide ↦ (slow, ground (arith, wide))
      ]
    ]

    no_baseline_passes :
        (d : StragglerDetector F) (r : WorkerProgress F) (ttc : F)
        → (judge fl d r ttc none).is_straggler ≢ true
    unfolding judge
    no_baseline_passes d r ttc h = true≢false (sym h)

    judge-Any :
        (d : StragglerDetector F) (r : WorkerProgress F) (ttc : F) (ts : List F)
        → (judge fl d r ttc (elim ts [ [] ↦ none | t ∷ ts' ↦ some (least fl t ts') ])).is_straggler
          ≡ true
        → (min_remaining_bytes d ≤ bytes_remaining r)
          × Any (λ t. fl.below (fl.times d.factor t) ttc ≡ true) ts
    judge-Any d r ttc [] h = absurd (no_baseline_passes d r ttc h)
    judge-Any d r ttc (t ∷ ts) h =
        let (slow, wide) = judge_passes d r ttc (least fl t ts) h in
        (wide, least-Any (λ b. fl.below (fl.times d.factor b) ttc ≡ true) t ts slow)

    judge-IsFaster :
        (d : StragglerDetector F) (r : WorkerProgress F) (ttc : F)
        (reports : List (WorkerProgress F))
        → (judge fl d r ttc (baseline_ttc fl reports (some r.worker_id))).is_straggler ≡ true
        → (min_remaining_bytes d ≤ bytes_remaining r) × Any (IsFaster d.factor r ttc) reports
    unfolding baseline_ttc
    judge-IsFaster d r ttc reports h =
        let (wide, fast) = judge-Any d r ttc (candidates fl reports (some r.worker_id)) h in
        (wide, candidates-Any r d.factor ttc reports fast)

    -- A worker is flagged only when its range is unfinished, it has a measured rate, it has twice
    -- the split floor or more to fetch, and some other active worker is so fast that even the
    -- factor times its projection is below the flagged worker's.
    pub straggler-IsFaster :
        (d : StragglerDetector F) (reports : List (WorkerProgress F)) (r : WorkerProgress F)
        → (evaluate_one fl d reports r).is_straggler ≡ true
        → (is_complete r ≡ false)
          × (2 * d.min_split ≤ bytes_remaining r)
          × ((v : F) × (r.throughput_bps ≡ some v)
              × Any (IsFaster d.factor r (projected fl r v)) reports)
    unfolding evaluate_one min_remaining_bytes
    straggler-IsFaster d reports r h = elim (Bool-cases (is_complete r)) [
      | inl done ↦ absurd (true≢false (sym (rw done at h)))
      | inr left ↦ elim (Option-cases r.throughput_bps) [
        | inl unmeasured ↦ absurd (true≢false (sym (rw (left, unmeasured) at h)))
        | inr (v, rate) ↦
            let (wide, faster) =
              judge-IsFaster d r (projected fl r v) reports (rw (left, rate) at h) in
            (left, wide, (v, rate, faster))
      ]
    ]
