-- ===== src/Tests/Deque.antt =====
-- A deque of width two with two tasks, and with one.
use relia_dl.Prelude.{ℕ, ◌≡◌, refl, true, none, some, [], ◌∷◌, arith}
use relia_dl.Deque.{get, Deque, pop, steal, drain}
use relia_dl.Deque.Window.{Holds}
use relia_dl.Deque.Laws.{Pushed, Raced, push-Holds, pop-newest, pop-last_race, steal-Raced}
use relia_dl.Deque.Runs.{drain-reverse}

abbrev two : Deque ℕ
two = record {
  array = record { capacity = 2; mask = 1; buffer = some 5 ∷ some 6 ∷ [] };
  top = 0;
  bottom = 2;
}

abbrev one : Deque ℕ
one = record {
  array = record { capacity = 2; mask = 1; buffer = some 5 ∷ none ∷ [] };
  top = 0;
  bottom = 1;
}

two-Holds : Holds two (5 ∷ 6 ∷ [])
unfolding get
two-Holds = record {
  ring = record { bits = 1; width = refl; masked = refl; full_length = refl };
  window = (refl, (refl, tt));
  counted = refl;
  fits = omega arith;
}

one-Holds : Holds one (5 ∷ [])
unfolding get
one-Holds = record {
  ring = record { bits = 1; width = refl; masked = refl; full_length = refl };
  window = (refl, tt);
  counted = refl;
  fits = omega arith;
}

push-Holds_example : Pushed two (5 ∷ 6 ∷ []) (some 7)
push-Holds_example = push-Holds two (5 ∷ 6 ∷ []) two-Holds (some 7)

pop-newest_example : ((pop (λ e. e) two).0 ≡ some 6) × Holds (pop (λ e. e) two).1 (5 ∷ [])
pop-newest_example = pop-newest (λ e. e) two (5 ∷ []) 6 (omega arith) two-Holds

abbrev robbed : Deque ℕ
robbed = record { array = one.array; top = 1; bottom = 0 }

pop-last_race_example : ((pop (λ e. robbed) one).0 ≡ none) × Holds (pop (λ e. robbed) one).1 []
pop-last_race_example = pop-last_race (λ e. robbed) one 5 true one-Holds refl

steal-Raced_example : Raced two two 5 (steal (λ e. e) two)
steal-Raced_example = steal-Raced (λ e. e) two 5 (6 ∷ []) two-Holds

drain-reverse_example : (d : Deque ℕ) × (drain two ≡ some (6 ∷ 5 ∷ [], d)) × Holds d []
drain-reverse_example = drain-reverse two (6 ∷ 5 ∷ []) two-Holds
