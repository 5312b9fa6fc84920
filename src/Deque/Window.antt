-- ===== src/Deque/Window.antt =====
-- Which tasks a deque holds: those in the slots from `top` up to `bottom`, oldest first.
use Prim.Native.Nat.{bit_and}
use mathlib.Core.List.{append-nil, append_assoc}
use native.Mathlib.Nat.{add-zero, div-add-mod, mod-lt, one-le-pow, pow-suc}
use relia_dl.Prelude.{
  ℕ, zero, suc, ◌+◌, ◌-◌, ◌*◌, ◌/◌, ◌%◌, ◌^◌, ◌≤◌, ◌<◌, ◌≡◌, ◌≢◌, refl, sym, ap, ◌∙◌, Option, none,
  some, List, [], ◌∷◌, ◌++◌, length, get_or, set, length-append, length-set, length-replicate,
  arith, dec_lt,
}
use relia_dl.Deque.Mask.{mask_mod}
use relia_dl.Deque.Ring.{Ring, new_ring, get, put, copy, grow}
use relia_dl.Deque.Ops.{Deque}

-- Two indices less than a ring apart have different slots.
slots_apart : (c i j : ℕ) → 0 < c → i < j → j < i + c → i % c ≢ j % c
slots_apart c i j h lt near e =
    let a = div-add-mod i c in
    let b = div-add-mod j c in
    elim (dec_lt (i / c) (j / c)) [
      | yes below ↦ let up : c * suc (i / c) ≤ c * (j / c) = grind arith in absurd (grind arith)
      | no above ↦ let down : c * (j / c) ≤ c * (i / c) = grind arith in absurd (omega arith)
    ]

module _ {A : Type 0} where
  -- A ring of a power of two slots, with the mask that goes with it.
  pub record IsRing (r : Ring A) : Type 0 where
    pub bits : ℕ
    pub width : r.capacity ≡ 2 ^ bits
    pub masked : r.mask ≡ r.capacity - 1
    pub full_length : length r.buffer ≡ r.capacity

  -- The tasks stored at the indices from `i` on.
  abbrev pub Window : Ring A → ℕ → List A → Type 0
  Window r i [] = Unit
  Window r i (x ∷ xs) = (get r i ≡ some x) × Window r (i + 1) xs

  -- The deque is well formed and holds exactly the tasks of the list, oldest first.
  pub record Holds (d : Deque A) (tasks : List A) : Type 0 where
    pub ring : IsRing d.array
    pub window : Window d.array d.top tasks
    pub counted : d.bottom ≡ d.top + length tasks
    pub fits : length tasks ≤ d.array.capacity

  pub capacity_pos : (r : Ring A) → IsRing r → 0 < r.capacity
  capacity_pos r v = omega (arith, v.width, one-le-pow v.bits 2 (omega arith))

  -- Where an index is stored.
  slot : (r : Ring A) → IsRing r → (i : ℕ) → bit_and i r.mask ≡ i % r.capacity
  slot r v i =
      ap (bit_and i) (v.masked ∙ ap (λ (c : ℕ). c - 1) v.width)
      ∙ mask_mod v.bits i
      ∙ ap (λ (c : ℕ). i % c) (sym v.width)

  get_or-set_self :
      (xs : List (Option A)) (i : ℕ) (x : Option A) → i < length xs → get_or (set xs i x) i none ≡ x
  get_or-set_self [] i x h = elim h [ ]
  get_or-set_self (y ∷ ys) zero x h = refl
  get_or-set_self (y ∷ ys) (suc i) x h = get_or-set_self ys i x (omega arith)

  get_or-set_ne :
      (xs : List (Option A)) (i j : ℕ) (x : Option A)
      → i ≢ j
      → get_or (set xs i x) j none ≡ get_or xs j none
  get_or-set_ne [] i j x h = refl
  get_or-set_ne (y ∷ ys) zero zero x h = absurd (h refl)
  get_or-set_ne (y ∷ ys) zero (suc j) x h = refl
  get_or-set_ne (y ∷ ys) (suc i) zero x h = refl
  get_or-set_ne (y ∷ ys) (suc i) (suc j) x h = get_or-set_ne ys i j x (λ e. h (ap suc e))

  pub put-IsRing : (r : Ring A) (i : ℕ) (x : Option A) → IsRing r → IsRing (put r i x)
  unfolding put
  put-IsRing r i x v = record {
    bits = v.bits;
    width = v.width;
    masked = v.masked;
    full_length = length-set r.buffer _ x ∙ v.full_length;
  }

  get-put_self : (r : Ring A) → IsRing r → (i : ℕ) (x : Option A) → get (put r i x) i ≡ x
  unfolding get put
  get-put_self r v i x =
      get_or-set_self r.buffer (bit_and i r.mask) x
        (omega (arith, slot r v i, v.full_length, mod-lt i (capacity_pos r v)))

  get-put_ne :
      (r : Ring A)
      → IsRing r
      → (i j : ℕ) (x : Option A) → i % r.capacity ≢ j % r.capacity
      → get (put r i x) j ≡ get r j
  unfolding get put
  get-put_ne r v i j x h =
      get_or-set_ne r.buffer (bit_and i r.mask) (bit_and j r.mask) x
        (λ e. h (sym (slot r v i) ∙ e ∙ slot r v j))

  -- A write behind the window, less than a ring from its start, leaves the window alone.
  pub Window-put :
      (r : Ring A)
      → IsRing r
      → (i j : ℕ) (x : Option A) (xs : List A) → i + length xs ≤ j
      → j < i + r.capacity
      → Window r i xs
      → Window (put r j x) i xs
  Window-put r v i j x [] h k w = tt
  Window-put r v i j x (y ∷ ys) h k w = (
    get-put_ne r v j i x
          (λ e. slots_apart r.capacity i j (capacity_pos r v) (omega arith) k (sym e))
        ∙ w.0,
    Window-put r v (i + 1) j x ys (omega arith) (omega arith) w.1,
  )

  pub Window-snoc :
      (r : Ring A) (i : ℕ) (xs : List A) (x : A)
      → Window r i xs
      → get r (i + length xs) ≡ some x
      → Window r i (xs ++ x ∷ [])
  Window-snoc r i [] x w h = (rw (← add-zero i) h, tt)
  Window-snoc r i (y ∷ ys) x w h =
      (w.0, Window-snoc r (i + 1) ys x w.1 (ap (get r) (omega arith) ∙ h))

  pub Window-last :
      (r : Ring A) (i : ℕ) (xs : List A) (x : A)
      → Window r i (xs ++ x ∷ [])
      → Window r i xs × (get r (i + length xs) ≡ some x)
  Window-last r i [] x w = (tt, ap (get r) (omega arith) ∙ w.0)
  Window-last r i (y ∷ ys) x w =
      let (front, back) = Window-last r (i + 1) ys x w.1 in
      ((w.0, front), ap (get r) (omega arith) ∙ back)

  -- A put at the end of a window that leaves room for it.
  pub Window-put_snoc :
      (r : Ring A)
      → IsRing r
      → (i : ℕ) (xs : List A) (x : A) → length xs < r.capacity
      → Window r i xs
      → Window (put r (i + length xs) (some x)) i (xs ++ x ∷ [])
  Window-put_snoc r v i xs x h w =
      Window-snoc _ i xs x
        (Window-put r v i (i + length xs) (some x) xs (omega arith) (omega arith) w)
        (get-put_self r v (i + length xs) (some x))

  put-capacity : (r : Ring A) (i : ℕ) (x : Option A) → (put r i x).capacity ≡ r.capacity
  unfolding put
  put-capacity r i x = refl

  -- Copying a window behind one that is already there joins the two.
  copy-Window :
      (from larger : Ring A)
      → IsRing larger
      → (t i : ℕ) (ys xs : List A) → i ≡ t + length ys
      → length ys + length xs ≤ larger.capacity
      → Window larger t ys
      → Window from i xs
      → let r = copy (length xs) i from larger in
        IsRing r × (r.capacity ≡ larger.capacity) × Window r t (ys ++ xs)
  unfolding copy
  copy-Window from larger v t i ys [] e h w u = (v, refl, rw append-nil w)
  copy-Window from larger v t i ys (x ∷ xs) e h w u =
      let next = put larger i (get from i) in
      let w' : Window next t (ys ++ x ∷ []) =
        rw (u.0, e) (Window-put_snoc larger v t ys x (omega arith) w) in
      let size : length (ys ++ x ∷ []) ≡ length ys + 1 = length-append ys (x ∷ []) in
      let (ring, cap, win) =
        copy-Window from next (put-IsRing larger i (get from i) v) t (i + 1) (ys ++ x ∷ []) xs
          (omega arith) (omega (arith, put-capacity larger i (get from i))) w' u.1 in
      (ring, cap ∙ put-capacity larger i (get from i), rw (← append_assoc ys (x ∷ []) xs) win)

  pub new_ring-IsRing : (k c : ℕ) → c ≡ 2 ^ k → IsRing (new_ring {A = A} c)
  unfolding new_ring
  new_ring-IsRing k c e = record {
    bits = k;
    width = e;
    masked = refl;
    full_length = length-replicate c none;
  }

  -- grow returns a ring of twice the width that holds the same tasks at the same indices.
  pub grow-Window :
      (r : Ring A)
      → IsRing r
      → (top bottom : ℕ) (xs : List A) → bottom ≡ top + length xs
      → length xs ≤ r.capacity
      → Window r top xs
      → IsRing (grow r top bottom)
        × ((grow r top bottom).capacity ≡ r.capacity * 2)
        × Window (grow r top bottom) top xs
  unfolding grow
  grow-Window r v top bottom xs e h w =
      let count : bottom - top ≡ length xs = omega arith in
      let room : length xs ≤ r.capacity * 2 = omega arith in
      rw count (
        copy-Window r (new_ring (r.capacity * 2))
          (new_ring-IsRing (suc v.bits) (r.capacity * 2) (omega (arith, v.width, pow-suc 2 v.bits)))
          top top [] xs (omega arith) (omega arith) tt w)
