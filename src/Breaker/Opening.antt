-- ===== src/Breaker/Opening.antt =====
-- When a breaker opens, and for how long.
use relia_dl.Prelude.{
  ℕ, ◌+◌, ◌-◌, ◌≤◌, ◌<◌, ◌≡◌, ◌⊎◌, inl, inr, refl, ap, Bool, true, false, ◌&&◌, Option, none, some,
  min, arith, dec_lt, dec_le, Option-cases, leb, le→leb, lt→leb_false,
}
use relia_dl.Breaker.Ops.{
  half_open, «open», CircuitBreaker, state, is_available, seconds_until_retry, failed, is_half_open,
  is_none,
}

available_closed : (now : ℕ) (b : CircuitBreaker) → b.opened_at ≡ none → is_available now b ≡ true
unfolding is_available state
available_closed now b e = rw (e, is_available, state) refl

available_later :
    (now at : ℕ) (b : CircuitBreaker)
    → b.opened_at ≡ some at
    → at + b.current_cooldown ≤ now
    → is_available now b ≡ true
unfolding is_available state
available_later now at b e h =
    rw (e, is_available, state, le→leb (at + b.current_cooldown) now h) refl

available_soon :
    (now at : ℕ) (b : CircuitBreaker)
    → b.opened_at ≡ some at
    → now < at + b.current_cooldown
    → is_available now b ≡ false
unfolding is_available state
available_soon now at b e h =
    rw (e, is_available, state, lt→leb_false (at + b.current_cooldown) now h) refl

retry_closed : (now : ℕ) (b : CircuitBreaker) → b.opened_at ≡ none → seconds_until_retry now b ≡ 0
unfolding seconds_until_retry
retry_closed now b e = rw (e, seconds_until_retry) refl

retry_open :
    (now at : ℕ) (b : CircuitBreaker)
    → b.opened_at ≡ some at
    → seconds_until_retry now b ≡ at + b.current_cooldown - now
unfolding seconds_until_retry
retry_open now at b e = rw (e, seconds_until_retry) refl

-- Whether a breaker admits a request at the time `now`, and how long it asks to wait.
pub data Admission (now : ℕ) (b : CircuitBreaker) : Type 0 where
  shut :
      b.opened_at ≡ none
      → is_available now b ≡ true
      → seconds_until_retry now b ≡ 0
      → Admission now b
  run_out :
      (at : ℕ)
      → b.opened_at ≡ some at
      → at + b.current_cooldown ≤ now
      → is_available now b ≡ true
      → seconds_until_retry now b ≡ 0
      → Admission now b
  cooling :
      (at : ℕ)
      → b.opened_at ≡ some at
      → now < at + b.current_cooldown
      → now + seconds_until_retry now b ≡ at + b.current_cooldown
      → ((m : ℕ) → m < seconds_until_retry now b → is_available (now + m) b ≡ false)
      → is_available (now + seconds_until_retry now b) b ≡ true
      → Admission now b

-- A breaker that is not open admits a request and asks for no wait. So does an open one whose
-- cooldown, counted from its opening, has run out. An open one whose cooldown has not run out asks
-- for the rest of it, refuses at each moment before that is over, the present one included, and
-- admits a request then.
pub is_available-Admission : (now : ℕ) (b : CircuitBreaker) → Admission now b
is_available-Admission now b = elim (Option-cases b.opened_at) [
  | inl e ↦ Admission.shut e (available_closed now b e) (retry_closed now b e)
  | inr (at, e) ↦
      let retry = retry_open now at b e in
      elim (dec_lt now (at + b.current_cooldown)) [
        | yes short ↦
            Admission.cooling at e (omega arith) (omega (arith, retry))
              (λ m h. available_soon (now + m) at b e (omega (arith, retry)))
              (available_later (now + seconds_until_retry now b) at b e (omega (arith, retry)))
        | no long ↦
            Admission.run_out at e (omega arith) (available_later now at b e (omega arith))
              (omega (arith, retry))
      ]
]

and_open : (x : Bool) (o : Option ℕ) (at : ℕ) → o ≡ some at → (x && is_none o) ≡ false
and_open true o at e = ap is_none e
and_open false o at e = refl

-- A failure of a breaker that is not open counts one more in a row; it opens the breaker, at
-- the time of the failure, when that makes as many as the threshold, and only then.
failed-closed :
    (scale : ℕ → ℕ) (before at : ℕ) (b : CircuitBreaker)
    → b.opened_at ≡ none
    → ((b.threshold ≤ b.consecutive_failures + 1)
        × (failed scale before at b ≡ record b {
          consecutive_failures = b.consecutive_failures + 1;
          opened_at = some at;
          trips = b.trips + 1;
        }))
      ⊎ ((b.consecutive_failures + 1 < b.threshold)
          × (failed scale before at b
              ≡ record b { consecutive_failures = b.consecutive_failures + 1 }))
unfolding failed state
failed-closed scale before at b e = elim (dec_le b.threshold (b.consecutive_failures + 1)) [
  | yes many ↦ inl (many, rw (e, le→leb b.threshold (b.consecutive_failures + 1) many) refl)
  | no few ↦ inr (
    omega arith,
    rw (e, lt→leb_false b.threshold (b.consecutive_failures + 1) (omega arith)) refl,
  )
]

-- A failed trial (the cooldown of an open breaker has run out) reopens the breaker at once, with
-- the cooldown scaled and cut to the cap; until then further failures change the count only.
failed-open :
    (scale : ℕ → ℕ) (before at opening : ℕ) (b : CircuitBreaker)
    → b.opened_at ≡ some opening
    → ((opening + b.current_cooldown ≤ before)
        × ((failed scale before at b).opened_at ≡ some at)
        × ((failed scale before at b).current_cooldown
            ≡ min b.max_cooldown (scale b.current_cooldown))
        × ((failed scale before at b).trips ≡ b.trips + 1))
      ⊎ ((before < opening + b.current_cooldown)
          × (failed scale before at b
              ≡ record b { consecutive_failures = b.consecutive_failures + 1 }))
unfolding failed state
failed-open scale before at opening b e = elim (dec_le (opening + b.current_cooldown) before) [
  | yes out ↦
      let half : state before b ≡ half_open =
        rw (e, state, le→leb (opening + b.current_cooldown) before out) refl in
      inl (
        out,
        rw (failed, ap is_half_open half) refl,
        rw (failed, ap is_half_open half) refl,
        rw (failed, ap is_half_open half) refl,
      )
  | no still ↦
      let shut : state before b ≡ «open» =
        rw (e, state, lt→leb_false (opening + b.current_cooldown) before (omega arith)) refl in
      inr (
        omega arith,
        rw
            (
              failed,
              ap is_half_open shut,
              and_open (leb b.threshold (b.consecutive_failures + 1)) b.opened_at opening e,
            )
            refl,
      )
]
