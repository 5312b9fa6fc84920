-- ===== src/Deque/Runs.antt =====
-- Whole runs: a new deque, and draining one at shutdown.
use mathlib.Core.Path.{subst}
use mathlib.Core.List.{reverse, reverse-cons}
use native.Mathlib.Nat.{one-le-pow}
use relia_dl.Prelude.{
  lt→ltb, le→ltb_false, Bool-cases, ℕ, zero, suc, ◌+◌, ◌-◌, ◌^◌, ◌<◌, ◌≡◌, ◌≢◌, ◌⊎◌, inl, inr, refl,
  sym, ap, ◌∙◌, false, some, List, [], ◌∷◌, ◌++◌, length, length-append, arith, if◌then◌else◌,
}
use relia_dl.Prelude.Int.{ℤ, pos, negsuc, pos_part, neg_part}
use relia_dl.Prelude.Results.{ok, err, configuration_error}
use relia_dl.Deque.Mask.{is_power_of_two, is_power_of_two_iff}
use relia_dl.Deque.Ring.{new_ring}
use relia_dl.Deque.Ops.{Deque, new_deque, pop, drain_loop, drain}
use relia_dl.Deque.Window.{Holds, new_ring-IsRing}
use relia_dl.Deque.Laws.{pop-empty, pop-newest, pop-last_race}

negsuc-pos : (n m : ℕ) → negsuc n ≢ pos m
negsuc-pos n m e = absurd (omega (arith, ap neg_part e))

module _ {A : Type 0} where
  -- With no thief about, pop takes the newest task whether or not it is the last.
  pop-quiet :
      (d : Deque A) (xs : List A) (x : A)
      → Holds d (xs ++ x ∷ [])
      → ((pop (λ e. e) d).0 ≡ some x) × Holds (pop (λ e. e) d).1 xs
  pop-quiet d [] x h = pop-last_race (λ e. e) d x false h refl
  pop-quiet d (y ∷ ys) x h = pop-newest (λ e. e) d (y ∷ ys) x (omega arith) h

  drain_loop-Holds :
      (fuel : ℕ) (d : Deque A) (xs : List A)
      → length xs < fuel
      → Holds d (reverse xs)
      → (d' : Deque A) × (drain_loop fuel d ≡ some (xs, d')) × Holds d' []
  unfolding drain_loop
  drain_loop-Holds zero d xs room h = absurd (omega arith)
  drain_loop-Holds (suc fuel) d [] room h = (
    record d { bottom = d.top },
    let e = pop-empty (λ e. e) d h in rw (drain_loop, ap (λ r. r.0) e, ap (λ r. r.1) e) refl,
    record { ring = h.ring; window = tt; counted = omega arith; fits = omega arith },
  )
  drain_loop-Holds (suc fuel) d (x ∷ xs) room h =
      let (taken, rest) =
        pop-quiet d (reverse xs) x (subst (λ l. Holds d l) (reverse-cons x xs) h) in
      let (d', run, done) = drain_loop-Holds fuel (pop (λ e. e) d).1 xs (omega arith) rest in
      (d', rw (drain_loop, taken, run) refl, done)

  length-reversed : (xs : List A) → length (reverse xs) ≡ length xs
  length-reversed [] = refl
  length-reversed (x ∷ xs) =
      ap length (reverse-cons x xs)
      ∙ length-append (reverse xs) (x ∷ [])
      ∙ omega (arith, length-reversed xs)

  -- Draining, with no thief about, comes to an end: a deque that holds the reverse of `xs` (oldest
  -- task first) returns `xs`, every task once and newest first, and is left empty.
  pub drain-reverse :
      (d : Deque A) (xs : List A)
      → Holds d (reverse xs)
      → (d' : Deque A) × (drain d ≡ some (xs, d')) × Holds d' []
  unfolding drain
  drain-reverse d xs h =
      drain_loop-Holds (d.bottom - d.top + 1) d xs (omega (arith, h.counted, length-reversed xs)) h

  -- A deque is made exactly for a capacity that is a power of two; it is then well formed and
  -- empty.
  new_deque_outcome :
      (capacity : ℤ)
      → ((k : ℕ) × (capacity ≡ pos (2 ^ k))
          × ((d : Deque A) × (new_deque capacity ≡ ok d) × Holds d []))
        ⊎ ((¬ ((k : ℕ) × (capacity ≡ pos (2 ^ k))))
            × (new_deque {A = A} capacity ≡ err (configuration_error "capacity")))
  unfolding new_deque
  new_deque_outcome (negsuc n) =
      inr
        ((λ (k, e). absurd (negsuc-pos n (2 ^ k) e)), rw (lt→ltb 0 (1 + suc n) (omega arith)) refl)
  new_deque_outcome (pos zero) =
      inr ((λ (k, e). absurd (omega (arith, ap pos_part e, one-le-pow k 2 (omega arith)))), refl)
  new_deque_outcome (pos (suc n)) = elim (Bool-cases (is_power_of_two (suc n))) [
    | inl fine ↦
        let (k, e) = (is_power_of_two_iff (suc n)).0 fine in
        inl (
          k,
          ap pos e,
          ((
            record { array = new_ring (suc n); top = 0; bottom = 0 },
            rw (le→ltb_false (suc n + 0) 1 (omega arith), fine) refl,
            record {
              ring = new_ring-IsRing k (suc n) e;
              window = tt;
              counted = omega arith;
              fits = omega arith;
            },
          )),
        )
    | inr bad ↦ inr (
      (λ (k, e). absurd (
          omega (
            arith,
            ap {B = ℕ} (λ b. if b then 1 else 0)
                (sym ((is_power_of_two_iff (suc n)).1 (k, ap pos_part e)) ∙ bad),
          ))),
      rw (le→ltb_false (suc n + 0) 1 (omega arith), bad) refl,
    )
  ]
