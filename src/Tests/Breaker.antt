-- ===== src/Tests/Breaker.antt =====
-- A breaker that opens at the second failure for 30 ticks, with a doubling cooldown up to 100.
use relia_dl.Prelude.{ℕ, ◌*◌, refl, ap, none, some, [], ◌∷◌, arith}
use relia_dl.Breaker.{CircuitBreaker, Call, run}
use relia_dl.Breaker.Invariant.{IsBreaker, run-IsBreaker}
use relia_dl.Breaker.Opening.{Admission, is_available-Admission}

abbrev double : ℕ → ℕ
double c = 2 * c

abbrev calm : CircuitBreaker
calm = record {
  threshold = 2;
  base_cooldown = 30;
  max_cooldown = 100;
  consecutive_failures = 1;
  opened_at = none;
  current_cooldown = 30;
  trips = 0;
}

abbrev tripped : CircuitBreaker
tripped = record calm { consecutive_failures = 2; opened_at = some 7; trips = 1 }

calm-IsBreaker : IsBreaker calm
calm-IsBreaker = record {
  threshold_pos = omega arith;
  base_pos = omega arith;
  base_le = omega arith;
  le_max = omega arith;
  shut = λ e. (omega arith, refl);
  opened = λ at e. absurd (omega (arith, ap {B = ℕ} (λ o. elim o [ none ↦ 0 | some x ↦ 1 ]) e));
}

run-IsBreaker_example :
    IsBreaker (run double (Call.fail 7 7 8 ∷ Call.fail 40 40 41 ∷ Call.succeed ∷ []) calm)
run-IsBreaker_example =
    run-IsBreaker double (λ c. omega arith)
      (Call.fail 7 7 8 ∷ Call.fail 40 40 41 ∷ Call.succeed ∷ []) calm calm-IsBreaker

is_available-Admission_example : Admission 9 tripped
is_available-Admission_example = is_available-Admission 9 tripped
