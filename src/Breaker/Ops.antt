-- ===== src/Breaker/Ops.antt =====
-- CircuitState and CircuitBreaker.
use relia_dl.Prelude.{
  ℕ, ◌+◌, ◌-◌, Bool, true, false, ◌&&◌, Option, none, some, List, [], ◌∷◌, min, max, leb, ltb,
  if◌then◌else◌,
}
use relia_dl.Prelude.Int.{ℤ, pos, ltb_ℤ, pos_part}
use relia_dl.Prelude.Results.{Result, ok, configuration_error, raise_if, ◌>>◌}

pub data CircuitState : Type 0 where
  closed «open» half_open : CircuitState

pub record CircuitBreaker : Type 0 where
  pub threshold : ℕ
  pub base_cooldown : ℕ
  pub max_cooldown : ℕ
  pub consecutive_failures : ℕ
  pub opened_at : Option ℕ
  pub current_cooldown : ℕ
  pub trips : ℕ

abbrev pub cap_of : ℕ → ℕ → Option ℤ → ℤ
cap_of default_max base none = pos (max default_max base)
cap_of default_max base (some m) = m

-- CircuitBreaker.__init__; `default_max` is DEFAULT_MAX_COOLDOWN_SECONDS in ticks.
unfoldable pub new_breaker : ℕ → ℤ → ℤ → Option ℤ → Result CircuitBreaker
new_breaker default_max threshold cooldown max_cooldown = do
  raise_if (ltb_ℤ threshold (pos 1)) (configuration_error "failure_threshold")
  raise_if (ltb_ℤ cooldown (pos 1)) (configuration_error "cooldown_seconds")
  let base = pos_part cooldown
  let cap = cap_of default_max base max_cooldown
  raise_if (ltb_ℤ cap (pos 1)) (configuration_error "max_cooldown_seconds")
  raise_if (ltb (pos_part cap) base) (configuration_error "max_cooldown_seconds")
  ok (record {
    threshold = pos_part threshold;
    base_cooldown = base;
    max_cooldown = pos_part cap;
    consecutive_failures = 0;
    opened_at = none;
    current_cooldown = base;
    trips = 0;
  })

-- The property `state`, read at `now`.
unfoldable pub state : ℕ → CircuitBreaker → CircuitState
state now b = elim b.opened_at [
  | none ↦ closed
  | some at ↦ if leb (at + b.current_cooldown) now then half_open else «open»
]

unfoldable pub is_available : ℕ → CircuitBreaker → Bool
is_available now b = elim (state now b) [ closed ↦ true | half_open ↦ true | «open» ↦ false ]

unfoldable pub seconds_until_retry : ℕ → CircuitBreaker → ℕ
seconds_until_retry now b = elim b.opened_at [ none ↦ 0 | some at ↦ at + b.current_cooldown - now ]

unfoldable pub record_success : CircuitBreaker → CircuitState × CircuitBreaker
record_success b = (
  closed,
  record b { consecutive_failures = 0; opened_at = none; current_cooldown = b.base_cooldown },
)

unfoldable pub reset : CircuitBreaker → CircuitBreaker
reset b = record b {
  consecutive_failures = 0;
  opened_at = none;
  current_cooldown = b.base_cooldown;
  trips = 0;
}

abbrev pub is_half_open : CircuitState → Bool
is_half_open closed = false
is_half_open «open» = false
is_half_open half_open = true

abbrev pub is_none : Option ℕ → Bool
is_none none = true
is_none (some n) = false

-- The state that record_failure leaves: `before` is the clock when it asks whether the breaker is
-- half-open, `at` when it stamps an opening.
unfoldable pub failed : (ℕ → ℕ) → ℕ → ℕ → CircuitBreaker → CircuitBreaker
failed scale before at b =
    if is_half_open (state before b)
    then record b {
      consecutive_failures = b.consecutive_failures + 1;
      current_cooldown = min b.max_cooldown (scale b.current_cooldown);
      opened_at = some at;
      trips = b.trips + 1;
    }
    else if leb b.threshold (b.consecutive_failures + 1) && is_none b.opened_at
    then record b {
      consecutive_failures = b.consecutive_failures + 1;
      opened_at = some at;
      trips = b.trips + 1;
    }
    else record b { consecutive_failures = b.consecutive_failures + 1 }

-- record_failure; `after` is the clock when it reads the state that it returns.
unfoldable pub record_failure : (ℕ → ℕ) → ℕ → ℕ → ℕ → CircuitBreaker → CircuitState × CircuitBreaker
record_failure scale before at after b = let b' = failed scale before at b in (state after b', b')

-- The calls that a breaker gets.
pub data Call : Type 0 where
  succeed : Call
  fail : ℕ → ℕ → ℕ → Call
  restart : Call

unfoldable pub step : (ℕ → ℕ) → Call → CircuitBreaker → CircuitBreaker
unfolding record_success record_failure reset
step scale succeed b = (record_success b).1
step scale (fail before at after) b = (record_failure scale before at after b).1
step scale restart b = reset b

unfoldable pub run : (ℕ → ℕ) → List Call → CircuitBreaker → CircuitBreaker
run scale [] b = b
run scale (c ∷ cs) b = run scale cs (step scale c b)
