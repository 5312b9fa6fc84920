-- ===== src/Stealing/Reports.antt =====
-- WorkerProgress: the report of one worker about its byte range.
use relia_dl.Prelude.{
  ℕ, ◌+◌, ◌-◌, ◌≤◌, Bool, true, false, not, ◌&&◌, ◌||◌, Option, none, some, [], ◌∷◌, ltb,
  if◌then◌else◌,
}
use relia_dl.Prelude.Int.{ℤ, pos, ◌+ℤ◌, ltb_ℤ, pos_part}
use relia_dl.Prelude.Results.{Result, ok, configuration_error, raise_if, ◌>>◌}
use relia_dl.Prelude.Text.{Text}
use relia_dl.Stealing.Numbers.{Floats}

pub record WorkerProgress (F : Type 0) : Type 0 where
  pub worker_id : Text
  pub range_start : ℕ
  pub range_end : ℕ
  pub next_byte : ℕ
  pub throughput_bps : Option F

abbrev pub is_blank : Text → Bool
is_blank [] = true
is_blank (c ∷ t) = false

module _ {F : Type 0} where
  -- The range and cursor that WorkerProgress accepts.
  pub record IsReport (r : WorkerProgress F) : Type 0 where
    pub ordered : r.range_start ≤ r.range_end
    pub begun : r.range_start ≤ r.next_byte
    pub inside : r.next_byte ≤ r.range_end + 1

  unfoldable pub bytes_total : WorkerProgress F → ℕ
  bytes_total r = r.range_end + 1 - r.range_start

  unfoldable pub bytes_completed : WorkerProgress F → ℕ
  bytes_completed r = r.next_byte - r.range_start

  unfoldable pub bytes_remaining : WorkerProgress F → ℕ
  bytes_remaining r = r.range_end + 1 - r.next_byte

  unfoldable pub is_complete : WorkerProgress F → Bool
  is_complete r = ltb r.range_end r.next_byte

  unfoldable pub has_estimate : WorkerProgress F → Bool
  has_estimate r = elim r.throughput_bps [ none ↦ false | some v ↦ true ]

  unfoldable pub is_active : WorkerProgress F → Bool
  unfolding is_complete has_estimate
  is_active r = not (is_complete r) && has_estimate r

  module _ (fl : Floats F) where
    abbrev bad_rate : Option F → Bool
    bad_rate none = false
    bad_rate (some v) = not (fl.is_finite v) || fl.below v fl.zero

    -- WorkerProgress.__post_init__, with the record that it leaves.
    unfoldable pub make_report : Text → ℤ → ℤ → ℤ → Option F → Result (WorkerProgress F)
    make_report worker start last next rate = do
      raise_if (is_blank worker) (configuration_error "worker_id")
      raise_if (ltb_ℤ start (pos 0)) (configuration_error "range_start")
      raise_if (ltb_ℤ last start) (configuration_error "range_end")
      raise_if (ltb_ℤ next start || ltb_ℤ (last +ℤ pos 1) next) (configuration_error "next_byte")
      raise_if (bad_rate rate) (configuration_error "throughput_bps")
      ok (record {
        worker_id = worker;
        range_start = pos_part start;
        range_end = pos_part last;
        next_byte = pos_part next;
        throughput_bps = rate;
      })

    -- The projection of an unfinished range at rate `v`.
    unfoldable pub projected : WorkerProgress F → F → F
    unfolding bytes_remaining
    projected r v = if fl.equal v fl.zero then fl.infinity else fl.int_over (bytes_remaining r) v

    unfoldable pub ttc_seconds : WorkerProgress F → Option F
    unfolding is_complete projected
    ttc_seconds r =
        if is_complete r
        then some fl.zero
        else elim r.throughput_bps [ none ↦ none | some v ↦ some (projected r v) ]
