-- ===== src/Tests/Stealing.antt =====
-- A slow worker, a fast one, and an idle one, with whole numbers for floats.
use relia_dl.Prelude.{
  ℕ, ◌*◌, ◌/◌, ◌≤◌, ◌<◌, ◌≡◌, ◌⊎◌, inl, refl, true, false, some, List, [], ◌∷◌, map, arith, ltb,
  ◌==◌, Any,
}
use relia_dl.Prelude.Results.{ok, err, configuration_error}
use relia_dl.Prelude.Text.{text_eq}
use relia_dl.Prelude.Ids.{occurs, Distinct, Distinct-cons, text_mem}
use relia_dl.Stealing.{
  Floats, WorkerProgress, IsReport, bytes_remaining, is_complete, projected, StragglerDetector,
  StragglerVerdict, evaluate_one, detect, bisect_range, BisectionTrigger, RangeBisection,
  thief_bytes, WorkStealCoordinator, WorkStealPlan, plan, is_active, ttc_seconds, candidates, least,
  baseline_ttc, judge, min_remaining_bytes, covers_original_range, victim_bytes_remaining,
  bytes_bisected, victim_end, thief_start, thief_end,
}
use relia_dl.Stealing.Halves.{IsSplit, cut_of, bisect_range_outcome}
use relia_dl.Stealing.Slowness.{
  IsFaster, id_of, verdict_id, no_ids-Distinct, detect_outcome, straggler-IsFaster,
}
use relia_dl.Stealing.Plans.{IsPlan, plan-IsPlan}

abbrev whole : Floats ℕ
whole = record {
  zero = 0;
  infinity = 1000000;
  is_finite = λ v. ltb v 1000000;
  below = λ a b. ltb a b;
  equal = λ a b. a == b;
  times = λ a b. a * b;
  over = λ a b. a / b;
  int_over = λ a b. a / b;
}

abbrev slow : WorkerProgress ℕ
slow = record {
  worker_id = 1 ∷ [];
  range_start = 0;
  range_end = 99;
  next_byte = 20;
  throughput_bps = some 1;
}

abbrev fast : WorkerProgress ℕ
fast = record {
  worker_id = 2 ∷ [];
  range_start = 100;
  range_end = 199;
  next_byte = 190;
  throughput_bps = some 10;
}

abbrev detector : StragglerDetector ℕ
detector = record { factor = 2; min_split = 8 }

abbrev coordinator : WorkStealCoordinator ℕ
coordinator = record { detector = detector; min_split = 8; use_idle_capacity = true }

abbrev both : List (WorkerProgress ℕ)
both = slow ∷ fast ∷ []

slow-IsReport : IsReport slow
slow-IsReport = record { ordered = omega arith; begun = omega arith; inside = omega arith }

fast-IsReport : IsReport fast
fast-IsReport = record { ordered = omega arith; begun = omega arith; inside = omega arith }

one-Distinct : (c : ℕ) → Distinct ((c ∷ []) ∷ [])
unfolding text_mem
one-Distinct c = Distinct-cons (c ∷ []) [] refl no_ids-Distinct

both-Distinct : Distinct (map id_of both)
unfolding text_mem text_eq
both-Distinct = Distinct-cons (1 ∷ []) ((2 ∷ []) ∷ []) refl (one-Distinct 2)

not_twice : ¬ Distinct (map id_of (slow ∷ slow ∷ []))
unfolding occurs text_eq
not_twice d = absurd (omega (arith, d (1 ∷ [])))

bisect_range_outcome_example :
    ((2 * 8 ≤ bytes_remaining slow)
      × (bisect_range slow (some (3 ∷ [])) 8 BisectionTrigger.straggler
          ≡ ok (cut_of slow (some (3 ∷ [])) BisectionTrigger.straggler))
      × IsSplit 8 (cut_of slow (some (3 ∷ [])) BisectionTrigger.straggler))
    ⊎ ((bytes_remaining slow < 2 * 8)
        × (bisect_range slow (some (3 ∷ [])) 8 BisectionTrigger.straggler
            ≡ err (configuration_error "bytes_remaining")))
bisect_range_outcome_example =
    bisect_range_outcome slow (some (3 ∷ [])) 8 BisectionTrigger.straggler slow-IsReport
      (omega arith)

abbrev halved : RangeBisection
halved = record {
  victim_id = 1 ∷ [];
  thief_id = some (3 ∷ []);
  original_start = 0;
  original_end = 99;
  next_byte = 20;
  boundary = 60;
  trigger = BisectionTrigger.straggler;
}

halved-IsSplit : IsSplit 8 halved
unfolding covers_original_range victim_bytes_remaining bytes_bisected victim_end thief_start
    thief_end thief_bytes
halved-IsSplit = record {
  covers = refl;
  victim_floor = omega arith;
  thief_floor = omega arith;
  even = inl refl;
  fresh = omega arith;
}

detect_outcome_example :
    (Distinct (map id_of both)
      × ((vs : List (StragglerVerdict ℕ)) × (detect whole detector both ≡ ok vs)
          × ((t : List ℕ) → occurs t (map verdict_id vs) ≤ occurs t (map id_of both))))
    ⊎ ((¬ Distinct (map id_of both))
        × (detect whole detector both ≡ err (configuration_error "reports")))
detect_outcome_example = detect_outcome whole detector both

slow_is_flagged : (evaluate_one whole detector both slow).is_straggler ≡ true
unfolding evaluate_one judge baseline_ttc candidates least is_complete is_active ttc_seconds
    projected bytes_remaining min_remaining_bytes text_eq
slow_is_flagged = refl

straggler-IsFaster_example :
    (is_complete slow ≡ false)
    × (2 * 8 ≤ bytes_remaining slow)
    × ((v : ℕ) × (some 1 ≡ some v) × Any (IsFaster whole 2 slow (projected whole slow v)) both)
straggler-IsFaster_example = straggler-IsFaster whole detector both slow slow_is_flagged

plan-IsPlan_example :
    (p : WorkStealPlan ℕ) × (plan whole coordinator both ((3 ∷ []) ∷ []) ≡ ok p)
    × IsPlan 8 ((3 ∷ []) ∷ []) p
plan-IsPlan_example =
    plan-IsPlan whole coordinator both ((3 ∷ []) ∷ []) (omega arith)
      (slow-IsReport, (fast-IsReport, tt)) both-Distinct ((refl, tt), one-Distinct 3)
