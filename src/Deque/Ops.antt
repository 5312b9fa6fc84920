-- ===== src/Deque/Ops.antt =====
-- ChaseLevDeque and StealResult. `bottom` is a natural: pop's transient value one below `top` is
-- only there inside pop, where the test `top > bottom - 1` is written `bottom ≤ top`.
use relia_dl.Prelude.{
  ℕ, zero, suc, ◌+◌, ◌-◌, Bool, true, false, not, Option, none, some, List, [], ◌∷◌, ltb, leb, ◌==◌,
  if◌then◌else◌,
}
use relia_dl.Prelude.Int.{ℤ, pos, ltb_ℤ, pos_part}
use relia_dl.Prelude.Results.{Result, ok, err, configuration_error, raise_if, ◌>>◌}
use relia_dl.Deque.Mask.{is_power_of_two}
use relia_dl.Deque.Ring.{Ring, new_ring, get, put, grow}

pub data StealStatus : Type 0 where
  success empty aborted : StealStatus

pub record StealResult (A : Type 0) : Type 0 where
  pub status : StealStatus
  pub task : Option A

pub record Deque (A : Type 0) : Type 0 where
  pub array : Ring A
  pub top : ℕ
  pub bottom : ℕ

module _ {A : Type 0} where
  unfoldable pub is_success : StealResult A → Bool
  is_success r = elim r.status [ success ↦ true | empty ↦ false | aborted ↦ false ]

  unfoldable pub should_retry : StealResult A → Bool
  should_retry r = elim r.status [ success ↦ false | empty ↦ false | aborted ↦ true ]

  abbrev empty_result : StealResult A
  empty_result = record { status = empty; task = none }

  abbrev aborted_result : StealResult A
  aborted_result = record { status = aborted; task = none }

  -- ChaseLevDeque.__init__
  unfoldable pub new_deque : ℤ → Result (Deque A)
  unfolding new_ring
  new_deque capacity = do
    raise_if (ltb_ℤ capacity (pos 1)) (configuration_error "capacity")
    raise_if (not (is_power_of_two (pos_part capacity))) (configuration_error "capacity")
    ok (record { array = new_ring (pos_part capacity); top = 0; bottom = 0 })

  -- ChaseLevDeque.__len__
  unfoldable pub size : Deque A → ℕ
  size d = d.bottom - d.top

  unfoldable pub is_empty : Deque A → Bool
  unfolding size
  is_empty d = size d == 0

  -- The buffer that a task is put into: the old one, or one of twice the width when it is full.
  unfoldable pub roomy : Deque A → Ring A
  unfolding grow
  roomy d = if leb d.array.capacity (d.bottom - d.top) then grow d.array d.top d.bottom else d.array

  unfoldable pub push : Option A → Deque A → Result (Deque A)
  unfolding roomy
  push none d = err (configuration_error "task")
  push (some x) d = ok (record d { array = put (roomy d) d.bottom (some x); bottom = d.bottom + 1 })

  -- The compare-and-swap under the lock: whether `top` was still the value that was read.
  unfoldable pub cas_top : ℕ → Deque A → Bool × Deque A
  cas_top seen d = if d.top == seen then (true, record d { top = seen + 1 }) else (false, d)

  -- pop; `others` is what competing thieves do between its reads and its compare-and-swap.
  unfoldable pub pop : (Deque A → Deque A) → Deque A → Option A × Deque A
  unfolding cas_top
  pop others d =
      let last = d.bottom - 1 in
      let claimed = record d { bottom = last } in
      let task = get d.array last in
      let (won, d') = cas_top d.top (others claimed) in
      if leb d.bottom d.top
      then (none, record d { bottom = d.top })
      else if ltb d.top last
      then (task, claimed)
      else (if won then task else none, record d' { bottom = d.top + 1 })

  -- steal; `others` is what the owner and competing thieves do between its reads and its
  -- compare-and-swap.
  unfoldable pub steal : (Deque A → Deque A) → Deque A → StealResult A × Deque A
  unfolding cas_top
  steal others d =
      let task = get d.array d.top in
      let (won, d') = cas_top d.top (others d) in
      if leb d.bottom d.top
      then (empty_result, d)
      else if won
      then (record { status = success; task = task }, d')
      else (aborted_result, d')

  -- The loop of try_steal: the rounds left, what others do in each, and the last result.
  unfoldable pub try_loop :
      ℕ → (ℕ → Deque A → Deque A) → StealResult A → Deque A → StealResult A × Deque A
  unfolding steal should_retry
  try_loop zero others last d = (last, d)
  try_loop (suc left) others last d =
      let (r, d') = steal (others left) d in
      let again = try_loop left others r d' in if should_retry r then again else (r, d')

  -- try_steal
  unfoldable pub try_steal :
      ℤ → (ℕ → Deque A → Deque A) → Deque A → Result (StealResult A × Deque A)
  unfolding try_loop
  try_steal attempts others d = do
    raise_if (ltb_ℤ attempts (pos 1)) (configuration_error "attempts")
    ok (try_loop (pos_part attempts) others empty_result d)

  -- The `while True` of drain with no competitor; `none` when the fuel runs out.
  unfoldable pub drain_loop : ℕ → Deque A → Option (List A × Deque A)
  drain_loop zero d = none
  drain_loop (suc fuel) d =
      let (task, d') = pop (λ e. e) d in
      elim task [
        | none ↦ some ([], d')
        | some x ↦ elim (drain_loop fuel d') [ none ↦ none | some (xs, d'') ↦ some (x ∷ xs, d'') ]
      ]

  unfoldable pub drain : Deque A → Option (List A × Deque A)
  unfolding drain_loop
  drain d = drain_loop (d.bottom - d.top + 1) d
