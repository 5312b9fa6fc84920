-- ===== src/Stealing/Detector.antt =====
-- StragglerDetector: the verdict on every report, and the flagged ones, worst first.
use relia_dl.Prelude.{
  ℕ, ◌*◌, Bool, false, not, ◌&&◌, ◌||◌, Option, none, some, List, [], ◌∷◌, map, ltb, if◌then◌else◌,
}
use relia_dl.Prelude.Int.{ℤ, pos, ltb_ℤ, pos_part}
use relia_dl.Prelude.Results.{Result, ok, configuration_error, raise_if, ◌>>=◌, ◌>>◌}
use relia_dl.Prelude.Text.{Text, text_eq}
use relia_dl.Prelude.Ids.{text_mem}
use relia_dl.Prelude.Sort.{sort_desc}
use relia_dl.Stealing.Numbers.{Floats}
use relia_dl.Stealing.Reports.{
  WorkerProgress, bytes_remaining, is_complete, is_active, projected, ttc_seconds,
}

pub data StragglerReason : Type 0 where
  straggler complete unprimed no_baseline within_threshold remainder_too_small : StragglerReason

pub record StragglerVerdict (F : Type 0) : Type 0 where
  pub worker_id : Text
  pub is_straggler : Bool
  pub reason : StragglerReason
  pub ttc_seconds : Option F
  pub baseline_ttc_seconds : Option F
  pub ratio : Option F
  pub bytes_remaining : ℕ
  pub threshold_ttc_seconds : Option F

pub record StragglerDetector (F : Type 0) : Type 0 where
  pub factor : F
  pub min_split : ℕ

abbrev pub is_named : Text → Option Text → Bool
is_named worker none = false
is_named worker (some t) = text_eq worker t

module _ {F : Type 0} where
  -- The set `seen` of _validate_reports, as a list of the identifiers met.
  unfoldable pub check_unique : List Text → List (WorkerProgress F) → Result (Unit {0})
  unfolding text_mem
  check_unique seen [] = ok tt
  check_unique seen (r ∷ rs) = do
    raise_if (text_mem r.worker_id seen) (configuration_error "reports")
    check_unique (r.worker_id ∷ seen) rs

  unfoldable pub validate_reports : List (WorkerProgress F) → Result (List (WorkerProgress F))
  unfolding check_unique
  validate_reports reports = do check_unique [] reports; ok reports

  unfoldable pub min_remaining_bytes : StragglerDetector F → ℕ
  min_remaining_bytes d = 2 * d.min_split

  unfoldable pub flagged : List (StragglerVerdict F) → List (StragglerVerdict F)
  flagged [] = []
  flagged (v ∷ vs) = let rest = flagged vs in if v.is_straggler then v ∷ rest else rest

  module _ (fl : Floats F) where
    -- StragglerDetector.__init__; `one` is the float 1.0
    unfoldable pub new_detector : F → F → ℤ → Result (StragglerDetector F)
    new_detector one factor min_split = do
      raise_if (not (fl.is_finite factor) || not (fl.below one factor))
          (configuration_error "factor")
      raise_if (ltb_ℤ min_split (pos 1)) (configuration_error "min_split_bytes")
      ok (record { factor = factor; min_split = pos_part min_split })

    unfoldable pub candidates : List (WorkerProgress F) → Option Text → List F
    candidates [] exclude = []
    candidates (r ∷ rs) exclude =
        let rest = candidates rs exclude in
        if is_active r && not (is_named r.worker_id exclude)
        then elim (ttc_seconds fl r) [ none ↦ rest | some t ↦ t ∷ rest ]
        else rest

    -- Python's `min` of a non-empty list: the first of the least.
    unfoldable pub least : F → List F → F
    least best [] = best
    least best (t ∷ ts) = least (if fl.below t best then t else best) ts

    unfoldable pub baseline_ttc : List (WorkerProgress F) → Option Text → Option F
    baseline_ttc reports exclude = elim (candidates reports exclude) [
      | [] ↦ none
      | t ∷ ts ↦ some (least t ts)
    ]

    -- _evaluate_one from the point where the report has a projection `ttc`.
    unfoldable pub judge :
        StragglerDetector F → WorkerProgress F → F → Option F → StragglerVerdict F
    judge d r ttc none = record {
      worker_id = r.worker_id;
      is_straggler = false;
      reason = no_baseline;
      ttc_seconds = some ttc;
      baseline_ttc_seconds = none;
      ratio = none;
      bytes_remaining = bytes_remaining r;
      threshold_ttc_seconds = none;
    }
    judge d r ttc (some baseline) =
        let threshold = fl.times d.factor baseline in
        let ratio = if fl.equal baseline fl.zero then fl.infinity else fl.over ttc baseline in
        let slow = fl.below threshold ttc in
        let short = ltb (bytes_remaining r) (min_remaining_bytes d) in
        record {
          worker_id = r.worker_id;
          is_straggler = slow && not short;
          reason =
              if slow then (if short then remainder_too_small else straggler) else within_threshold;
          ttc_seconds = some ttc;
          baseline_ttc_seconds = some baseline;
          ratio = some ratio;
          bytes_remaining = bytes_remaining r;
          threshold_ttc_seconds = some threshold;
        }

    abbrev plain_verdict : WorkerProgress F → StragglerReason → StragglerVerdict F
    plain_verdict r why = record {
      worker_id = r.worker_id;
      is_straggler = false;
      reason = why;
      ttc_seconds = ttc_seconds fl r;
      baseline_ttc_seconds = none;
      ratio = none;
      bytes_remaining = bytes_remaining r;
      threshold_ttc_seconds = none;
    }

    -- _evaluate_one
    unfoldable pub evaluate_one :
        StragglerDetector F → List (WorkerProgress F) → WorkerProgress F → StragglerVerdict F
    evaluate_one d reports r =
        if is_complete r then plain_verdict r complete else elim r.throughput_bps [
          | none ↦ plain_verdict r unprimed
          | some v ↦ judge d r (projected fl r v) (baseline_ttc reports (some r.worker_id))
        ]

    unfoldable pub evaluate :
        StragglerDetector F → List (WorkerProgress F) → Result (List (StragglerVerdict F))
    evaluate d reports = do
      checked ← validate_reports reports
      ok (map (evaluate_one d checked) checked)

    abbrev ttc_or_zero : Option F → F
    ttc_or_zero none = fl.zero
    ttc_or_zero (some t) = t

    -- The order of the keys (ttc_seconds or 0.0, bytes_remaining), compared as tuples.
    unfoldable pub key_below : StragglerVerdict F → StragglerVerdict F → Bool
    key_below v w =
        let a = ttc_or_zero v.ttc_seconds in
        let b = ttc_or_zero w.ttc_seconds in
        if fl.equal a b then ltb v.bytes_remaining w.bytes_remaining else fl.below a b

    unfoldable pub detect :
        StragglerDetector F → List (WorkerProgress F) → Result (List (StragglerVerdict F))
    detect d reports = do verdicts ← evaluate d reports; ok (sort_desc key_below (flagged verdicts))

    unfoldable pub worst_straggler :
        StragglerDetector F → List (WorkerProgress F) → Result (Option (StragglerVerdict F))
    worst_straggler d reports = do
      found ← detect d reports
      ok (elim found [ [] ↦ none | v ∷ vs ↦ some v ])
