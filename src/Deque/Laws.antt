-- ===== src/Deque/Laws.antt =====
-- What one method call does to the tasks that a deque holds.
use mathlib.Core.Path.{subst}
use relia_dl.Prelude.{
  lt→ltb, le→ltb_false, ==_true, ==_false, if◌then◌else◌, lt→leb_false, le→leb, ℕ, ◌+◌, ◌-◌, ◌<◌,
  ◌≡◌, ◌≢◌, refl, sym, ap, ◌∙◌, Bool, true, false, Option, none, some, List, [], ◌∷◌, ◌++◌, length,
  length-append, arith, dec_lt,
}
use relia_dl.Prelude.Results.{ok, err, configuration_error}
use relia_dl.Deque.Ring.{get, put}
use relia_dl.Deque.Ops.{
  Deque, StealResult, success, empty, aborted, push, roomy, pop, steal, cas_top,
}
use relia_dl.Deque.Window.{
  IsRing, Window, Holds, put-IsRing, Window-put_snoc, Window-last, grow-Window, capacity_pos,
}

module _ {A : Type 0} where
  put_capacity :
      (d : Deque A) (x : A) → (put (roomy d) d.bottom (some x)).capacity ≡ (roomy d).capacity
  unfolding put
  put_capacity d x = refl

  -- Room for one more task, in the old ring or the grown one.
  roomy-Window :
      (d : Deque A) (xs : List A)
      → Holds d xs
      → IsRing (roomy d) × (length xs < (roomy d).capacity) × Window (roomy d) d.top xs
  unfolding roomy
  roomy-Window d xs h = elim (dec_lt (d.bottom - d.top) d.array.capacity) [
    | yes room ↦
        rw (lt→leb_false d.array.capacity (d.bottom - d.top) room)
          (h.ring, omega (arith, h.counted), h.window)
    | no full ↦
        let (ring, cap, win) =
          grow-Window d.array h.ring d.top d.bottom xs h.counted h.fits h.window in
        rw (le→leb d.array.capacity (d.bottom - d.top) (omega arith))
          (ring, omega (arith, cap, capacity_pos d.array h.ring, h.fits), win)
  ]

  filled-Window :
      (d : Deque A) (xs : List A) (x : A)
      → Holds d xs
      → Window (put (roomy d) d.bottom (some x)) d.top (xs ++ x ∷ [])
  filled-Window d xs x h =
      let (ring, room, win) = roomy-Window d xs h in
      subst (λ i. Window (put (roomy d) i (some x)) d.top (xs ++ x ∷ [])) (sym h.counted)
        (Window-put_snoc (roomy d) ring d.top xs x room win)

  -- What a push of an optional task does to a deque that holds `xs`.
  abbrev pub Pushed : Deque A → List A → Option A → Type 0
  Pushed d xs none = push none d ≡ err (configuration_error "task")
  Pushed d xs (some x) = (d' : Deque A) × (push (some x) d ≡ ok d') × Holds d' (xs ++ x ∷ [])

  -- Pushing a task on a well formed deque puts it behind the newest one, whether or not the ring
  -- has to grow for it; pushing None is refused.
  pub push-Holds : (d : Deque A) (xs : List A) → Holds d xs → (task : Option A) → Pushed d xs task
  unfolding push
  push-Holds d xs h none = refl
  push-Holds d xs h (some x) =
      let (ring, room, win) = roomy-Window d xs h in
      (
        record d { array = put (roomy d) d.bottom (some x); bottom = d.bottom + 1 },
        refl,
        record {
          ring = put-IsRing (roomy d) d.bottom (some x) ring;
          window = filled-Window d xs x h;
          counted = omega (arith, h.counted, length-append xs (x ∷ []));
          fits = rw (put_capacity d x) (omega (arith, length-append xs (x ∷ [])));
        },
      )

  -- An empty deque gives nothing, and stays as it was.
  pub pop-empty :
      (others : Deque A → Deque A) (d : Deque A)
      → Holds d []
      → pop others d ≡ (none, record d { bottom = d.top })
  unfolding pop
  pop-empty others d h = rw (le→leb d.bottom d.top (omega (arith, h.counted)))

  -- With two tasks or more the owner takes the newest without a compare-and-swap, and the deque
  -- holds the others in their order.
  pub pop-newest :
      (others : Deque A → Deque A) (d : Deque A) (xs : List A) (x : A)
      → 0 < length xs
      → Holds d (xs ++ x ∷ [])
      → ((pop others d).0 ≡ some x) × Holds (pop others d).1 xs
  unfolding pop
  pop-newest others d xs x more h =
      let size = length-append xs (x ∷ []) in
      let (front, back) = Window-last d.array d.top xs x h.window in
      rw
        (
          lt→leb_false d.bottom d.top (omega (arith, h.counted)),
          lt→ltb d.top (d.bottom - 1) (omega (arith, h.counted)),
        )
        (
          ap (get d.array) (omega (arith, h.counted)) ∙ back,
          record {
            ring = h.ring;
            window = front;
            counted = omega (arith, h.counted);
            fits = omega (arith, h.fits);
          },
        )

  -- A deque whose two ends meet holds nothing.
  Holds-ends :
      (d : Deque A) (top : ℕ)
      → IsRing d.array
      → Holds (record { array = d.array; top = top; bottom = top }) []
  Holds-ends d top ring = record {
    ring = ring;
    window = tt;
    counted = omega arith;
    fits = omega arith;
  }

  cas_top-same :
      (seen : ℕ) (d : Deque A) → d.top ≡ seen → cas_top seen d ≡ (true, record d { top = seen + 1 })
  unfolding cas_top
  cas_top-same seen d e = rw (==_true d.top seen e) refl

  cas_top-moved : (seen : ℕ) (d : Deque A) → d.top ≢ seen → cas_top seen d ≡ (false, d)
  unfolding cas_top
  cas_top-moved seen d e = rw (==_false d.top seen e) refl

  -- What pop comes to when it goes on to its compare-and-swap, and steal when there is a task.
  pop-contested :
      (others : Deque A → Deque A) (d : Deque A)
      → d.bottom ≡ d.top + 1
      → let (won, d') = cas_top d.top (others (record d { bottom = d.bottom - 1 })) in
        pop others d
        ≡ ((if won then get d.array (d.bottom - 1) else none), record d' { bottom = d.top + 1 })
  unfolding pop
  pop-contested others d h =
      rw
        (lt→leb_false d.bottom d.top (omega arith), le→ltb_false d.top (d.bottom - 1) (omega arith))
        refl

  steal-contested :
      (others : Deque A → Deque A) (d : Deque A)
      → d.top < d.bottom
      → let (won, d') = cas_top d.top (others d) in
        steal others d ≡ (
          if won
          then (record { status = success; task = get d.array d.top }, d')
          else (record { status = aborted; task = none }, d'))
  unfolding steal
  steal-contested others d h = rw (lt→leb_false d.bottom d.top h) refl

  -- The last task, when thieves do nothing to the deque before the owner's compare-and-swap but
  -- move `top` past it, or nothing at all: in the first case the owner gets nothing, in the second
  -- it gets the task, and the deque is empty and well formed either way.
  pub pop-last_race :
      (others : Deque A → Deque A) (d : Deque A) (x : A) (stolen : Bool)
      → Holds d (x ∷ [])
      → others (record d { bottom = d.bottom - 1 }) ≡ record {
        array = d.array;
        top = (if stolen then d.top + 1 else d.top);
        bottom = d.bottom - 1;
      }
      → ((pop others d).0 ≡ (if stolen then none else some x)) × Holds (pop others d).1 []
  unfolding pop cas_top
  pop-last_race others d x true h e =
      rw
        (
          pop-contested others d (omega (arith, h.counted)),
          e,
          cas_top-moved d.top (record { array = d.array; top = d.top + 1; bottom = d.bottom - 1 })
              (omega arith),
        )
        (refl, Holds-ends d (d.top + 1) h.ring)
  pop-last_race others d x false h e =
      rw
        (
          pop-contested others d (omega (arith, h.counted)),
          e,
          cas_top-same d.top (record { array = d.array; top = d.top; bottom = d.bottom - 1 }) refl,
        )
        (ap (get d.array) (omega (arith, h.counted)) ∙ h.window.0, Holds-ends d (d.top + 1) h.ring)

  -- A thief on a deque that holds no task gets EMPTY and changes nothing.
  pub steal-empty :
      (others : Deque A → Deque A) (d : Deque A)
      → Holds d []
      → steal others d ≡ (record { status = empty; task = none }, d)
  unfolding steal
  steal-empty others d h = rw (le→leb d.bottom d.top (omega (arith, h.counted))) refl

  -- How a thief's compare-and-swap came out, for the task `x` it read and the deque `e` that the
  -- others left.
  abbrev pub Raced : Deque A → Deque A → A → StealResult A × Deque A → Type 0
  Raced d e x (r, d') =
      ((ys : List A)
        → e.top ≡ d.top
        → Holds e (x ∷ ys)
        → (r ≡ record { status = success; task = some x }) × Holds d' ys)
      × (e.top ≢ d.top → (r ≡ record { status = aborted; task = none }) × (d' ≡ e))

  -- A thief on a deque whose oldest task is `x`: when no other call moved `top` and `x` is still
  -- the oldest task, it gets `x` and leaves the rest; when another call moved `top`, it gets
  -- ABORTED and leaves the deque as that call left it.
  pub steal-Raced :
      (others : Deque A → Deque A) (d : Deque A) (x : A) (xs : List A)
      → Holds d (x ∷ xs)
      → Raced d (others d) x (steal others d)
  steal-Raced others d x xs h = (
    λ ys same after.
        rw
          (
            steal-contested others d (omega (arith, h.counted)),
            cas_top-same d.top (others d) same,
            h.window.0,
          )
          (
            refl,
            record {
              ring = after.ring;
              window = subst (λ i. Window (others d).array (i + 1) ys) same after.window.1;
              counted = omega (arith, after.counted);
              fits = omega (arith, after.fits);
            },
          ),
    λ moved.
        rw
          (
            steal-contested others d (omega (arith, h.counted)),
            cas_top-moved d.top (others d) moved,
          )
          (refl, refl),
  )
