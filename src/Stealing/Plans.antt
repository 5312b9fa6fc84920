-- ===== src/Stealing/Plans.antt =====
-- A whole plan of one epoch.
use relia_dl.Prelude.{
  ℕ, ◌+◌, ◌*◌, ◌≤◌, ◌<◌, ◌≡◌, inl, inr, refl, ◌∙◌, true, false, some, List, [], ◌∷◌, ◌++◌, map,
  arith, Bool-cases, All,
}
use relia_dl.Prelude.Results.{ok, err, configuration_error}
use relia_dl.Prelude.Text.{Text}
use relia_dl.Prelude.Ids.{
  occurs, Distinct, text_mem, text_mem→occurs, not_mem→occurs, occurs_self, occurs-cons,
  Distinct-cons,
}
use relia_dl.Prelude.Sort.{sort_desc, occurs-sort_desc, All-sort_desc}
use relia_dl.Stealing.Numbers.{Floats}
use relia_dl.Stealing.Reports.{WorkerProgress, IsReport, bytes_remaining, is_blank}
use relia_dl.Stealing.Coordinator.{
  WorkStealPlan, WorkStealCoordinator, Round, spare_reports, remaining_below, use_spare, plan,
  plan_of, start_of, unique_loop, unique_idle_ids,
}
use relia_dl.Stealing.Halves.{IsSplit, is_wide_iff}
use relia_dl.Stealing.Slowness.{id_of, detect_outcome, no_occurs, no_ids-Distinct}
use relia_dl.Stealing.Rounds.{Stage, IsVictim, occurs_spared, thief_of, victim_of}
use relia_dl.Stealing.Epoch.{serve_flagged-Stage, serve_spare-Stage}

-- Identifiers that _unique_idle_ids accepts: none empty, none twice.
abbrev pub IsPool : List Text → Type 0
IsPool ids = All (λ t. is_blank t ≡ false) ids × Distinct ids

unique_loop-IsPool :
    (seen ids : List Text)
    → Distinct seen
    → All (λ t. is_blank t ≡ false) ids
    → ((t : Text) → occurs t seen + occurs t ids ≤ 1)
    → unique_loop seen ids ≡ ok ids
unfolding unique_loop
unique_loop-IsPool seen [] d full once = refl
unique_loop-IsPool seen (t ∷ ts) d full once = elim (Bool-cases (text_mem t seen)) [
  | inl again ↦ absurd (omega (arith, once t, occurs_self t ts, text_mem→occurs t seen again))
  | inr fresh ↦
      rw
        (
          full.0,
          fresh,
          unique_loop-IsPool (t ∷ seen) ts (Distinct-cons t seen fresh d) full.1
              (λ u. omega (arith, once u, occurs-cons u t seen, occurs-cons u t ts)),
        )
        refl
]

module _ {F : Type 0} where
  -- What the second pass may take: reports of workers that are neither idle nor split already.
  spare_reports-All :
      (min_split : ℕ) (idle split : List Text) (rs : List (WorkerProgress F))
      → 0 < min_split
      → All IsReport rs
      → All
          (λ r. IsVictim idle r × (2 * min_split ≤ bytes_remaining r))
          (spare_reports min_split idle split rs)
        × ((t : Text)
            → occurs t (map id_of (spare_reports min_split idle split rs))
              ≤ occurs t (map id_of rs))
        × ((t : Text)
            → text_mem t split ≡ true
            → occurs t (map id_of (spare_reports min_split idle split rs)) ≡ 0)
  unfolding spare_reports
  spare_reports-All min_split idle split [] p v = (tt, (λ t. omega arith), λ t h. no_occurs t)
  spare_reports-All min_split idle split (r ∷ rs) p v =
      let (all, bound, none_split) = spare_reports-All min_split idle split rs p v.1 in
      elim (Bool-cases (text_mem r.worker_id split)) [
        | inl done ↦
            rw done (
              all,
              λ t. omega (arith, bound t, occurs-cons t r.worker_id (map id_of rs)),
              none_split,
            )
        | inr whole ↦ elim (Bool-cases (text_mem r.worker_id idle)) [
          | inl busy ↦
              rw (whole, busy)
                (
                  all,
                  λ t. omega (arith, bound t, occurs-cons t r.worker_id (map id_of rs)),
                  none_split,
                )
          | inr out ↦ elim (is_wide_iff min_split r p) [
            | inr (bad, short) ↦
                rw (whole, out, bad)
                  (
                    all,
                    λ t. omega (arith, bound t, occurs-cons t r.worker_id (map id_of rs)),
                    none_split,
                  )
            | inl (fine, wide) ↦
                rw (whole, out, fine)
                  (
                    (((v.0, out), wide), all),
                    λ t. omega (
                      arith,
                      bound t,
                      occurs-cons t r.worker_id (map id_of rs),
                      occurs-cons t r.worker_id (map id_of (spare_reports min_split idle split rs)),
                    ),
                    λ t there.
                        occurs_spared split r.worker_id
                          (map id_of (spare_reports min_split idle split rs)) t whole there
                          (none_split t there),
                  )
          ]
        ]
      ]

  -- A plan: every split is a proper one; the thieves, in the order of the splits, and then the
  -- workers left idle are exactly the idle workers that were offered, in their order; no victim is
  -- split twice; and none is an idle worker.
  pub record IsPlan (min_split : ℕ) (idle : List Text) (p : WorkStealPlan F) : Type 0 where
    pub splits : All (IsSplit min_split) p.bisections
    pub queue : map thief_of p.bisections ++ map some p.idle_workers ≡ map some idle
    pub once : Distinct (map victim_of p.bisections)
    pub spared : (t : Text) → text_mem t idle ≡ true → occurs t (map victim_of p.bisections) ≡ 0

  start-Stage : (idle : List Text) (min_split : ℕ) → Stage {F = F} idle min_split (start_of idle)
  start-Stage idle min_split = record {
    splits = tt;
    queue = refl;
    victims = λ t. refl;
    spared = λ t h. no_occurs t;
  }

  Stage-IsPlan :
      (idle : List Text) (min_split : ℕ) (s : Round F)
      → Stage idle min_split s
      → ((t : Text) → occurs t s.split_victims ≤ 1)
      → IsPlan min_split idle (plan_of s)
  Stage-IsPlan idle min_split s g once = record {
    splits = g.splits;
    queue = g.queue;
    once = λ t. omega (arith, g.victims t, once t);
    spared = λ t there. g.victims t ∙ g.spared t there;
  }

  use_spare-Stage :
      (c : WorkStealCoordinator F) (idle : List Text) (reports : List (WorkerProgress F))
      (s : Round F)
      → 0 < c.min_split
      → All IsReport reports
      → Distinct (map id_of reports)
      → ((t : Text) → occurs t s.split_victims ≤ occurs t (map id_of reports))
      → Stage idle c.min_split s
      → (s' : Round F) × (use_spare c idle reports s ≡ ok s')
        × Stage idle c.min_split s'
        × ((t : Text) → occurs t s'.split_victims ≤ 1)
  unfolding use_spare
  use_spare-Stage c idle reports s p valid once bound g = elim (Bool-cases c.use_idle_capacity) [
    | inr unused ↦ (s, rw unused refl, g, λ t. omega (arith, bound t, once t))
    | inl used ↦
        let spare = spare_reports c.min_split idle s.split_victims reports in
        let (all, few, others) =
          spare_reports-All c.min_split idle s.split_victims reports p valid in
        let (s', run, g', more) =
          serve_spare-Stage idle c.min_split p (sort_desc remaining_below spare) s
            (All-sort_desc remaining_below
              (λ r. IsVictim idle r × (2 * c.min_split ≤ bytes_remaining r)) spare all)
            g in
        (
          s',
          rw used run,
          g',
          λ t.
              let sorted = occurs-sort_desc remaining_below id_of t spare in
              elim (Bool-cases (text_mem t s.split_victims)) [
                | inl there ↦ omega (arith, more t, sorted, others t there, bound t, once t)
                | inr fresh ↦
                    omega
                      (arith, more t, sorted, few t, once t, not_mem→occurs t s.split_victims fresh)
              ],
        )
  ]

  -- One epoch, on well formed reports of different workers, idle workers that are named once each
  -- and not by an empty text, and a split floor of at least a byte: a plan is made, whatever the
  -- detector and its floats. Every split in it is sound with halves no smaller than the floor, no
  -- victim is split twice or is idle, and the thieves, in the order of the splits, followed by the
  -- workers left idle are the idle workers in their order.
  pub plan-IsPlan :
      (fl : Floats F) (c : WorkStealCoordinator F) (reports : List (WorkerProgress F))
      (idle : List Text)
      → 0 < c.min_split
      → All IsReport reports
      → Distinct (map id_of reports)
      → IsPool idle
      → (p : WorkStealPlan F) × (plan fl c reports idle ≡ ok p) × IsPlan c.min_split idle p
  unfolding plan unique_idle_ids
  plan-IsPlan fl c reports idle floor valid once (full, each) =
      elim (detect_outcome fl c.detector reports) [
        | inr (twice, bad) ↦ absurd (twice once)
        | inl (_, (vs, found, known)) ↦
            let (s, served, g, bound) =
              serve_flagged-Stage idle c.min_split floor reports vs (start_of idle) valid known
                (start-Stage idle c.min_split) in
            let (s', done, g', few) =
              use_spare-Stage c idle reports s floor valid once
                (λ t. omega (arith, bound t, known t, no_occurs t)) g in
            let pool =
              unique_loop-IsPool [] idle no_ids-Distinct full
                (λ t. omega (arith, each t, no_occurs t)) in
            (
              plan_of s',
              rw (pool, found, served, done) refl,
              Stage-IsPlan idle c.min_split s' g' few,
            )
      ]

  -- Two reports of one worker are refused, and no plan is made.
  plan_twice :
      (fl : Floats F) (c : WorkStealCoordinator F) (reports : List (WorkerProgress F))
      (idle : List Text)
      → (¬ Distinct (map id_of reports))
      → IsPool idle
      → plan fl c reports idle ≡ err (configuration_error "reports")
  unfolding plan unique_idle_ids
  plan_twice fl c reports idle twice (full, each) = elim (detect_outcome fl c.detector reports) [
    | inl (once, _) ↦ absurd (twice once)
    | inr (_, bad) ↦
        let pool =
          unique_loop-IsPool [] idle no_ids-Distinct full
            (λ t. omega (arith, each t, no_occurs t)) in
        rw (pool, bad) refl
  ]
