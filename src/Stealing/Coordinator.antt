-- ===== src/Stealing/Coordinator.antt =====
-- WorkStealCoordinator: one epoch of planning.
use relia_dl.Prelude.{
  ℕ, ◌+◌, Bool, true, false, not, ◌&&◌, Option, none, some, List, [], ◌∷◌, ◌++◌, ltb, if◌then◌else◌,
}
use relia_dl.Prelude.Int.{ℤ, pos, ltb_ℤ, pos_part}
use relia_dl.Prelude.Results.{
  Result, ok, err, configuration_error, key_error, raise_if, ◌>>=◌, ◌>>◌,
}
use relia_dl.Prelude.Text.{Text, text_eq}
use relia_dl.Prelude.Ids.{text_mem}
use relia_dl.Prelude.Sort.{sort_desc}
use relia_dl.Stealing.Numbers.{Floats}
use relia_dl.Stealing.Reports.{WorkerProgress, bytes_remaining, is_blank}
use relia_dl.Stealing.Detector.{StragglerVerdict, StragglerDetector, detect}
use relia_dl.Stealing.Bisection.{
  RangeBisection, BisectionTrigger, bisect_range, can_bisect, is_wide, thief_bytes,
}

pub record WorkStealPlan (F : Type 0) : Type 0 where
  pub bisections : List RangeBisection
  pub unmatched_stragglers : List (StragglerVerdict F)
  pub idle_workers : List Text

pub record WorkStealCoordinator (F : Type 0) : Type 0 where
  pub detector : StragglerDetector F
  pub min_split : ℕ
  pub use_idle_capacity : Bool

-- The local variables of plan.
pub record Round (F : Type 0) : Type 0 where
  pub bisections : List RangeBisection
  pub unmatched : List (StragglerVerdict F)
  pub available : List Text
  pub split_victims : List Text

-- The loop of _unique_idle_ids, with its set `seen`.
unfoldable pub unique_loop : List Text → List Text → Result (List Text)
unique_loop seen [] = ok []
unique_loop seen (t ∷ ts) = do
  raise_if (is_blank t) (configuration_error "idle_worker_ids")
  raise_if (text_mem t seen) (configuration_error "idle_worker_ids")
  rest ← unique_loop (t ∷ seen) ts
  ok (t ∷ rest)

unfoldable pub unique_idle_ids : List Text → Result (List Text)
unique_idle_ids ids = unique_loop [] ids

abbrev sum_bytes : List RangeBisection → ℕ
sum_bytes [] = 0
sum_bytes (b ∷ bs) = thief_bytes b + sum_bytes bs

module _ {F : Type 0} where
  unfoldable pub has_work : WorkStealPlan F → Bool
  has_work p = elim p.bisections [ [] ↦ false | b ∷ bs ↦ true ]

  unfoldable pub bytes_reassigned : WorkStealPlan F → ℕ
  bytes_reassigned p = sum_bytes p.bisections

  -- WorkStealCoordinator.__init__; `fallback` is the detector made when none is given
  unfoldable pub new_coordinator :
      (ℤ → Result (StragglerDetector F))
      → Option (StragglerDetector F)
      → ℤ
      → Bool
      → Result (WorkStealCoordinator F)
  new_coordinator fallback detector min_split idle = do
    raise_if (ltb_ℤ min_split (pos 1)) (configuration_error "min_split_bytes")
    d ← elim detector [ none ↦ fallback min_split | some d ↦ ok d ]
    ok (record { detector = d; min_split = pos_part min_split; use_idle_capacity = idle })

  -- `by_id[worker_id]`; a later report with the same identifier would win.
  unfoldable pub by_id : Text → List (WorkerProgress F) → Option (WorkerProgress F)
  by_id t [] = none
  by_id t (r ∷ rs) = elim (by_id t rs) [
    | some later ↦ some later
    | none ↦ if text_eq t r.worker_id then some r else none
  ]

  -- Splitting a report for the next thief, which pop(0) took from `available`.
  unfoldable pub hand_over :
      ℕ → BisectionTrigger → WorkerProgress F → Text → List Text → Round F → Result (Round F)
  hand_over min_split trigger r thief left s = do
    b ← bisect_range r (some thief) min_split trigger
    ok (record {
      bisections = s.bisections ++ b ∷ [];
      unmatched = s.unmatched;
      available = left;
      split_victims = r.worker_id ∷ s.split_victims;
    })

  abbrev pub leave_unmatched : StragglerVerdict F → Round F → Round F
  leave_unmatched v s = record s { unmatched = s.unmatched ++ v ∷ [] }

  -- One flagged verdict whose worker has the report `r`.
  unfoldable pub relieve : ℕ → StragglerVerdict F → WorkerProgress F → Round F → Result (Round F)
  relieve min_split v r s = do
    fine ← can_bisect min_split r
    if fine
        then elim s.available [
          | [] ↦ ok (leave_unmatched v s)
          | thief ∷ left ↦ hand_over min_split BisectionTrigger.straggler r thief left s
        ]
        else ok (leave_unmatched v s)

  -- The body of the first loop of plan.
  unfoldable pub serve_one :
      ℕ → List Text → List (WorkerProgress F) → StragglerVerdict F → Round F → Result (Round F)
  serve_one min_split idle reports v s =
      if text_mem v.worker_id idle then ok s else elim (by_id v.worker_id reports) [
        | none ↦ err key_error
        | some r ↦ relieve min_split v r s
      ]

  unfoldable pub serve_flagged :
      ℕ
      → List Text
      → List (WorkerProgress F)
      → List (StragglerVerdict F)
      → Round F
      → Result (Round F)
  serve_flagged min_split idle reports [] s = ok s
  serve_flagged min_split idle reports (v ∷ vs) s = do
    next ← serve_one min_split idle reports v s
    serve_flagged min_split idle reports vs next

  -- The comprehension under spare_candidates; the floor of a coordinator is one that can_bisect
  -- accepts.
  unfoldable pub spare_reports :
      ℕ → List Text → List Text → List (WorkerProgress F) → List (WorkerProgress F)
  spare_reports min_split idle split [] = []
  spare_reports min_split idle split (r ∷ rs) =
      let rest = spare_reports min_split idle split rs in
      if not (text_mem r.worker_id split) && not (text_mem r.worker_id idle) && is_wide min_split r
      then r ∷ rest
      else rest

  unfoldable pub remaining_below : WorkerProgress F → WorkerProgress F → Bool
  remaining_below a b = ltb (bytes_remaining a) (bytes_remaining b)

  -- The second loop of plan.
  unfoldable pub serve_spare : ℕ → List (WorkerProgress F) → Round F → Result (Round F)
  serve_spare min_split [] s = ok s
  serve_spare min_split (r ∷ rs) s = elim s.available [
    | [] ↦ ok s
    | thief ∷ left ↦ hand_over min_split BisectionTrigger.idle_capacity r thief left s >>= λ next.
        serve_spare min_split rs next
  ]

  abbrev pub plan_of : Round F → WorkStealPlan F
  plan_of s = record {
    bisections = s.bisections;
    unmatched_stragglers = s.unmatched;
    idle_workers = s.available;
  }

  -- The second pass of plan, when idle capacity is to be used.
  unfoldable pub use_spare :
      WorkStealCoordinator F → List Text → List (WorkerProgress F) → Round F → Result (Round F)
  use_spare c idle reports s =
      if c.use_idle_capacity
      then serve_spare c.min_split
          (sort_desc remaining_below (spare_reports c.min_split idle s.split_victims reports)) s
      else ok s

  abbrev pub start_of : List Text → Round F
  start_of idle = record { bisections = []; unmatched = []; available = idle; split_victims = [] }

  -- WorkStealCoordinator.plan
  unfoldable pub plan :
      Floats F
      → WorkStealCoordinator F
      → List (WorkerProgress F)
      → List Text
      → Result (WorkStealPlan F)
  plan fl c reports ids = do
    idle ← unique_idle_ids ids
    flagged ← detect fl c.detector reports
    served ← serve_flagged c.min_split idle reports flagged (start_of idle)
    done ← use_spare c idle reports served
    ok (plan_of done)
