-- ===== src/Stealing/Epoch.antt =====
-- One epoch: which splits a plan has, and who is given which.
use relia_dl.Prelude.{
  All-snoc, ℕ, ◌+◌, ◌*◌, ◌≤◌, ◌<◌, ◌≡◌, inl, inr, refl, ap, ◌∙◌, true, some, List, [], ◌∷◌, ◌++◌,
  map, arith, Bool-cases, List-cases, All, le→ltb_false,
}
use relia_dl.Prelude.Results.{◌>>=◌, Result, ok}
use relia_dl.Prelude.Text.{Text}
use relia_dl.Prelude.Ids.{occurs, text_mem, occurs_self, occurs-cons}
use relia_dl.Stealing.Reports.{WorkerProgress, IsReport, bytes_remaining}
use relia_dl.Stealing.Detector.{StragglerVerdict}
use relia_dl.Stealing.Bisection.{BisectionTrigger, can_bisect, is_wide}
use relia_dl.Stealing.Coordinator.{
  Round, hand_over, relieve, serve_one, serve_flagged, serve_spare, leave_unmatched,
}
use relia_dl.Stealing.Halves.{IsSplit, bisect_range_outcome, is_wide_iff, cut_of}
use relia_dl.Stealing.Slowness.{id_of, verdict_id}
use relia_dl.Stealing.Rounds.{queue-snoc, victims-snoc, Stage, by_id-found, IsVictim, occurs_spared}

module _ {F : Type 0} (idle : List Text) (min_split : ℕ) (floor : 0 < min_split) where
  hand_over-Stage :
      (trigger : BisectionTrigger) (r : WorkerProgress F) (thief : Text) (left : List Text)
      (s : Round F)
      → IsVictim idle r
      → 2 * min_split ≤ bytes_remaining r
      → s.available ≡ thief ∷ left
      → Stage idle min_split s
      → (s' : Round F) × (hand_over min_split trigger r thief left s ≡ ok s')
        × Stage idle min_split s'
        × (s'.split_victims ≡ r.worker_id ∷ s.split_victims)
  unfolding hand_over
  hand_over-Stage trigger r thief left s (v, out) wide avail g =
      elim (bisect_range_outcome r (some thief) min_split trigger v floor) [
        | inr (short, bad) ↦ absurd (omega (arith, short, wide))
        | inl (enough, made, split) ↦
            let b = cut_of r (some thief) trigger in
            (
              record {
                bisections = s.bisections ++ b ∷ [];
                unmatched = s.unmatched;
                available = left;
                split_victims = r.worker_id ∷ s.split_victims;
              },
              rw made refl,
              record {
                splits = All-snoc (IsSplit min_split) s.bisections b g.splits split;
                queue = queue-snoc s.bisections b thief s.available left idle refl avail g.queue;
                victims = λ t. victims-snoc s.bisections b s.split_victims t (g.victims t);
                spared = λ t there.
                    occurs_spared idle r.worker_id s.split_victims t out there (g.spared t there);
              },
              refl,
            )
      ]

  -- The new round is in order, and has at most one victim more, the given one.
  abbrev IsNext : Text → Round F → Round F → Type 0
  IsNext id s s' =
      Stage idle min_split s'
      × ((t : Text) → occurs t s'.split_victims ≤ occurs t (id ∷ []) + occurs t s.split_victims)

  unmatched-Stage :
      (v : StragglerVerdict F) (s : Round F)
      → Stage idle min_split s
      → Stage idle min_split (leave_unmatched v s)
  unmatched-Stage v s g = record {
    splits = g.splits;
    queue = g.queue;
    victims = g.victims;
    spared = g.spared;
  }

  abbrev give : StragglerVerdict F → WorkerProgress F → Round F → List Text → Result (Round F)
  give v r s available = elim available [
    | [] ↦ ok (leave_unmatched v s)
    | thief ∷ left ↦ hand_over min_split BisectionTrigger.straggler r thief left s
  ]

  relieve_wide :
      (v : StragglerVerdict F) (r : WorkerProgress F) (s : Round F)
      → is_wide min_split r ≡ true
      → relieve min_split v r s ≡ give v r s s.available
  unfolding relieve can_bisect
  relieve_wide v r s fine = rw (le→ltb_false min_split 1 floor, fine) refl

  relieve-Stage :
      (v : StragglerVerdict F) (r : WorkerProgress F) (s : Round F)
      → IsVictim idle r
      → Stage idle min_split s
      → (s' : Round F) × (relieve min_split v r s ≡ ok s') × IsNext r.worker_id s s'
  unfolding relieve can_bisect
  relieve-Stage v r s victim g = elim (is_wide_iff min_split r floor) [
    | inr (bad, short) ↦ (
      leave_unmatched v s,
      rw (le→ltb_false min_split 1 floor, bad) refl,
      (unmatched-Stage v s g, λ t. omega arith),
    )
    | inl (fine, wide) ↦ elim (List-cases s.available) [
      | inl empty ↦ (
        leave_unmatched v s,
        relieve_wide v r s fine ∙ ap (give v r s) empty,
        (unmatched-Stage v s g, λ t. omega arith),
      )
      | inr (thief, left, avail) ↦
          let (s', made, g', more) =
            hand_over-Stage BisectionTrigger.straggler r thief left s victim wide avail g in
          (
            s',
            relieve_wide v r s fine ∙ ap (give v r s) avail ∙ made,
            (g', λ t. omega (arith, ap (occurs t) more, occurs-cons t r.worker_id s.split_victims)),
          )
    ]
  ]

  serve_spare-hand_over :
      (r : WorkerProgress F) (rs : List (WorkerProgress F)) (s s' : Round F) (thief : Text)
      (left : List Text)
      → s.available ≡ thief ∷ left
      → hand_over min_split BisectionTrigger.idle_capacity r thief left s ≡ ok s'
      → serve_spare min_split (r ∷ rs) s ≡ serve_spare min_split rs s'
  unfolding serve_spare
  serve_spare-hand_over r rs s s' thief left avail made =
      ap
        (λ a. elim a [
          | [] ↦ ok s
          | u ∷ us ↦ hand_over min_split BisectionTrigger.idle_capacity r u us s >>= λ next.
              serve_spare min_split rs next
        ])
        avail
      ∙ ap (λ m. m >>= λ next. serve_spare min_split rs next) made

  pub serve_spare-Stage :
      (rs : List (WorkerProgress F)) (s : Round F)
      → All (λ r. IsVictim idle r × (2 * min_split ≤ bytes_remaining r)) rs
      → Stage idle min_split s
      → (s' : Round F) × (serve_spare min_split rs s ≡ ok s')
        × Stage idle min_split s'
        × ((t : Text)
            → occurs t s'.split_victims ≤ occurs t (map id_of rs) + occurs t s.split_victims)
  unfolding serve_spare
  serve_spare-Stage [] s fits g = (s, refl, g, λ t. omega arith)
  serve_spare-Stage (r ∷ rs) s fits g = elim (List-cases s.available) [
    | inl empty ↦ (s, rw empty refl, g, λ t. omega arith)
    | inr (thief, left, avail) ↦
        let (s', made, g', more) =
          hand_over-Stage BisectionTrigger.idle_capacity r thief left s fits.0.0 fits.0.1 avail g in
        let (s'', run, g'', bound) = serve_spare-Stage rs s' fits.1 g' in
        (
          s'',
          serve_spare-hand_over r rs s s' thief left avail made ∙ run,
          g'',
          λ t. omega (
            arith,
            bound t,
            ap (occurs t) more,
            occurs-cons t r.worker_id s.split_victims,
            occurs-cons t r.worker_id (map id_of rs),
          ),
        )
  ]

  -- The victims that a round may still gain from `id`.
  serve_one-Stage :
      (reports : List (WorkerProgress F)) (v : StragglerVerdict F) (s : Round F)
      → All IsReport reports
      → 0 < occurs v.worker_id (map id_of reports)
      → Stage idle min_split s
      → (s' : Round F) × (serve_one min_split idle reports v s ≡ ok s') × IsNext v.worker_id s s'
  unfolding serve_one
  serve_one-Stage reports v s valid known g = elim (Bool-cases (text_mem v.worker_id idle)) [
    | inl busy ↦ (s, rw busy refl, (g, λ t. omega arith))
    | inr out ↦
        let (r, found, (fits, same)) = by_id-found v.worker_id reports valid known in
        let (s', run, (g', bound)) =
          relieve-Stage v r s (fits, ap (λ u. text_mem u idle) same ∙ out) g in
        (
          s',
          rw (out, found) run,
          (g', λ t. omega (arith, bound t, ap (λ u. occurs t (u ∷ [])) same)),
        )
  ]

  pub serve_flagged-Stage :
      (reports : List (WorkerProgress F)) (vs : List (StragglerVerdict F)) (s : Round F)
      → All IsReport reports
      → ((t : Text) → occurs t (map verdict_id vs) ≤ occurs t (map id_of reports))
      → Stage idle min_split s
      → (s' : Round F) × (serve_flagged min_split idle reports vs s ≡ ok s')
        × Stage idle min_split s'
        × ((t : Text)
            → occurs t s'.split_victims ≤ occurs t (map verdict_id vs) + occurs t s.split_victims)
  unfolding serve_flagged
  serve_flagged-Stage reports [] s valid known g = (s, refl, g, λ t. omega arith)
  serve_flagged-Stage reports (v ∷ vs) s valid known g =
      let (s', one, (g', first)) =
        serve_one-Stage reports v s valid
          (omega (arith, known v.worker_id, occurs_self v.worker_id (map verdict_id vs))) g in
      let (s'', run, g'', rest) =
        serve_flagged-Stage reports vs s' valid
          (λ t. omega (arith, known t, occurs-cons t v.worker_id (map verdict_id vs))) g' in
      (
        s'',
        rw one run,
        g'',
        λ t. omega (arith, first t, rest t, occurs-cons t v.worker_id (map verdict_id vs)),
      )
