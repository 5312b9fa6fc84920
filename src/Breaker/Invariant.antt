-- ===== src/Breaker/Invariant.antt =====
-- What every run of the breaker's methods keeps.
use relia_dl.Prelude.{
  ℕ, ◌+◌, ◌≤◌, ◌<◌, ◌≡◌, inl, inr, refl, false, ◌&&◌, Option, none, some, List, [], ◌∷◌, arith,
  Bool-cases, leb, sym, ap, ◌∙◌,
}
use relia_dl.Prelude.Int.{ℤ, pos, pos_part, ◌≤ℤ◌}
use relia_dl.Prelude.Results.{ok}
use relia_dl.Breaker.Ops.{
  CircuitBreaker, cap_of, new_breaker, state, record_success, reset, failed, record_failure, Call,
  succeed, fail, restart, step, run, is_half_open, is_none,
}

-- The cooldown in force is between the base and the cap. A breaker that is not open has the base
-- cooldown and fewer failures in a row than the threshold; one that is open has tripped.
pub record IsBreaker (b : CircuitBreaker) : Type 0 where
  pub threshold_pos : 0 < b.threshold
  pub base_pos : 0 < b.base_cooldown
  pub base_le : b.base_cooldown ≤ b.current_cooldown
  pub le_max : b.current_cooldown ≤ b.max_cooldown
  pub shut :
      (b.opened_at ≡ none)
      → (b.consecutive_failures < b.threshold) × (b.current_cooldown ≡ b.base_cooldown)
  pub opened : (at : ℕ) → b.opened_at ≡ some at → (0 < b.trips)

some≢none : (n : ℕ) → ¬ (some n ≡ none)
some≢none n e = absurd (omega (arith, ap {B = ℕ} (λ o. elim o [ none ↦ 0 | some x ↦ 1 ]) e))

stays_below : (t n : ℕ) (o : Option ℕ) → (leb t (n + 1) && is_none o) ≡ false → o ≡ none → n + 1 < t
stays_below t n none h e = ground arith
stays_below t n (some at) h e = absurd (some≢none at e)

calm-IsBreaker :
    (b b' : CircuitBreaker)
    → IsBreaker b
    → b'.threshold ≡ b.threshold
    → b'.base_cooldown ≡ b.base_cooldown
    → b'.max_cooldown ≡ b.max_cooldown
    → b'.consecutive_failures ≡ 0
    → b'.opened_at ≡ none
    → b'.current_cooldown ≡ b.base_cooldown
    → IsBreaker b'
calm-IsBreaker b b' v e f g h o c = record {
  threshold_pos = omega (arith, v.threshold_pos, e);
  base_pos = omega (arith, v.base_pos, f);
  base_le = omega (arith, f, c);
  le_max = omega (arith, v.base_le, v.le_max, g, c);
  shut = λ n. (omega (arith, v.threshold_pos, e, h), omega (arith, c, f));
  opened = λ at s. absurd (some≢none at (sym s ∙ o));
}

failed-IsBreaker :
    (scale : ℕ → ℕ)
    → ((c : ℕ) → c ≤ scale c)
    → (before at : ℕ) (b : CircuitBreaker) → IsBreaker b
    → IsBreaker (failed scale before at b)
unfolding failed
failed-IsBreaker scale grows before at b v = elim (Bool-cases (is_half_open (state before b))) [
  | inl half ↦ rw half (record {
    threshold_pos = v.threshold_pos;
    base_pos = v.base_pos;
    base_le = omega (arith, v.base_le, v.le_max, grows b.current_cooldown);
    le_max = omega arith;
    shut = λ e. absurd (some≢none at e);
    opened = λ s e. omega arith;
  })
  | inr other ↦
      elim (Bool-cases (leb b.threshold (b.consecutive_failures + 1) && is_none b.opened_at)) [
        | inl trip ↦
            rw (other, trip)
              (record {
                threshold_pos = v.threshold_pos;
                base_pos = v.base_pos;
                base_le = v.base_le;
                le_max = v.le_max;
                shut = λ e. absurd (some≢none at e);
                opened = λ s e. omega arith;
              })
        | inr calm ↦
            rw (other, calm)
              (record {
                threshold_pos = v.threshold_pos;
                base_pos = v.base_pos;
                base_le = v.base_le;
                le_max = v.le_max;
                shut = λ e. (
                  stays_below b.threshold b.consecutive_failures b.opened_at calm e,
                  (v.shut e).1,
                );
                opened = v.opened;
              })
      ]
]

-- With a multiplier that does not shrink a cooldown, whatever calls a well formed breaker gets,
-- in any order and at any times, it stays well formed.
pub run-IsBreaker :
    (scale : ℕ → ℕ)
    → ((c : ℕ) → c ≤ scale c)
    → (cs : List Call) (b : CircuitBreaker) → IsBreaker b
    → IsBreaker (run scale cs b)
unfolding run step record_success record_failure reset
run-IsBreaker scale grows [] b v = v
run-IsBreaker scale grows (succeed ∷ cs) b v =
    run-IsBreaker scale grows cs _ (calm-IsBreaker b _ v refl refl refl refl refl refl)
run-IsBreaker scale grows (fail before at after ∷ cs) b v =
    run-IsBreaker scale grows cs (failed scale before at b)
      (failed-IsBreaker scale grows before at b v)
run-IsBreaker scale grows (restart ∷ cs) b v =
    run-IsBreaker scale grows cs _ (calm-IsBreaker b _ v refl refl refl refl refl refl)

-- A new breaker, made of a threshold and a cooldown of one or more and a cap that is not below the
-- cooldown (by default the larger of the default cap and the cooldown), is well formed.
new_breaker-IsBreaker :
    (default_max t c : ℕ) (cap : Option ℤ)
    → 0 < t
    → 0 < c
    → pos c ≤ℤ cap_of default_max c cap
    → (b : CircuitBreaker) × (new_breaker default_max (pos t) (pos c) cap ≡ ok b) × IsBreaker b
unfolding new_breaker
new_breaker-IsBreaker d t c cap ht hc hm = (
  record {
    threshold = t;
    base_cooldown = c;
    max_cooldown = pos_part (cap_of d c cap);
    consecutive_failures = 0;
    opened_at = none;
    current_cooldown = c;
    trips = 0;
  },
  ground arith,
  record {
    threshold_pos = ht;
    base_pos = hc;
    base_le = omega arith;
    le_max = omega (arith, hm);
    shut = λ e. (ht, refl);
    opened = λ at e. absurd (some≢none at (sym e));
  },
)
