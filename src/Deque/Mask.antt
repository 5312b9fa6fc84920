-- ===== src/Deque/Mask.antt =====
-- is_power_of_two of adaptive_chunker.py, and a bitwise mask of ones as a remainder.
use Prim.Native.Nat.{bit_and, bit_and-bitwise, digits}
use mathlib.Core.Path.{ap₂}
use native.Mathlib.Nat.{
  pow-suc, one-le-pow, mod-lt, mod-eq_of_lt, one-mul, mul-mod_left, mul-add-mod_self_left,
  div-add-mod,
}
use relia_dl.Prelude.{
  ℕ, zero, suc, ◌+◌, ◌-◌, ◌*◌, ◌/◌, ◌%◌, ◌^◌, ◌≤◌, ◌<◌, ◌≡◌, ◌↔◌, refl, sym, ◌∙◌, ap, Bool, true,
  ◌&&◌, min, ltb, ◌==◌, arith, ℕ_discrete,
}

unfoldable pub is_power_of_two : ℕ → Bool
is_power_of_two value = ltb 0 value && bit_and value (value - 1) == 0

abbrev meet : ℕ → ℕ → ℕ → ℕ
meet fuel a b = digits (λ _. zero) min fuel a b

meet_none : (fuel b : ℕ) → meet fuel 0 b ≡ 0
meet_none zero b = refl
meet_none (suc fuel) b = refl

-- More fuel than the first number changes nothing.
meet_enough : (a b more fuel : ℕ) → a ≤ fuel → fuel ≤ more → meet more a b ≡ meet fuel a b
meet_enough zero b more fuel enough bound = meet_none more b ∙ sym (meet_none fuel b)
meet_enough (suc a) b more zero enough bound = absurd (omega arith)
meet_enough (suc a) b zero (suc fuel) enough bound = absurd (omega arith)
meet_enough (suc a) b (suc more) (suc fuel) enough bound =
    omega (arith, meet_enough (suc a / 2) (b / 2) more fuel (omega arith) (omega arith))

bit_and_halves : (a b : ℕ) → bit_and a b ≡ bit_and (a / 2) (b / 2) * 2 + min (a % 2) (b % 2)
bit_and_halves zero b = omega (arith, bit_and-bitwise 0 b, bit_and-bitwise 0 (b / 2))
bit_and_halves (suc a) b =
    let whole = bit_and-bitwise (suc a) b in
    let half = bit_and-bitwise (suc a / 2) (b / 2) in
    let fuel = meet_enough (suc a / 2) (b / 2) a (suc a / 2) (omega arith) (omega arith) in
    omega (arith, whole, half, fuel)

zero_mask : (n a : ℕ) → a ≤ n → bit_and a 0 ≡ 0
zero_mask n zero h = bit_and-bitwise 0 0
zero_mask zero (suc a) h = absurd (omega arith)
zero_mask (suc n) (suc a) h =
    omega (arith, bit_and_halves (suc a) 0, zero_mask n (suc a / 2) (omega arith))

-- A remainder by an even number, from the halves.
mod_double : (v a : ℕ) → 0 < v → a / 2 % v * 2 + a % 2 ≡ a % (2 * v)
mod_double v a h =
    let half : v * (a / 2 / v) + a / 2 % v ≡ a / 2 = div-add-mod (a / 2) v in
    let r : a / 2 % v < v = mod-lt (a / 2) h in
    let s : ℕ = a / 2 % v * 2 + a % 2 in
    let whole : 2 * v * (a / 2 / v) + s ≡ a = grind arith in
    let rest : (2 * v * (a / 2 / v) + s) % (2 * v) ≡ s % (2 * v) =
      mul-add-mod_self_left (2 * v) (a / 2 / v) s in
    let small : s % (2 * v) ≡ s = mod-eq_of_lt (omega arith) in
    sym small ∙ sym rest ∙ ap (λ (t : ℕ). t % (2 * v)) whole

pub mask_mod : (k a : ℕ) → bit_and a (2 ^ k - 1) ≡ a % 2 ^ k
mask_mod zero a = omega (arith, zero_mask a a (omega arith))
mask_mod (suc k) a =
    let v : ℕ = 2 ^ k in
    let double : 2 ^ suc k ≡ 2 * v = omega (arith, pow-suc 2 k) in
    let pos_v : 0 < v = one-le-pow k 2 (omega arith) in
    rw double (
      let lower : (2 * v - 1) / 2 ≡ v - 1 = omega arith in
      omega (
        arith,
        bit_and_halves a (2 * v - 1),
        ap (bit_and (a / 2)) lower,
        mask_mod k (a / 2),
        mod_double v a pos_v,
      ))

self_and : (n a : ℕ) → a ≤ n → bit_and a a ≡ a
self_and n zero h = bit_and-bitwise 0 0
self_and zero (suc a) h = absurd (omega arith)
self_and (suc n) (suc a) h =
    omega (arith, bit_and_halves (suc a) (suc a), self_and n (suc a / 2) (omega arith))

-- The two halves of the claim below, for a number of at least two.
even_halves : (u : ℕ) → 0 < u → bit_and (2 * u) (2 * u - 1) ≡ 0 → bit_and u (u - 1) ≡ 0
even_halves u h e =
    let same : 2 * u / 2 ≡ u = omega arith in
    let lower : (2 * u - 1) / 2 ≡ u - 1 = omega arith in
    omega (arith, bit_and_halves (2 * u) (2 * u - 1), ap₂ bit_and same lower)

odd_halves : (u : ℕ) → bit_and (2 * u + 1) (2 * u + 1 - 1) ≡ 0 → u ≡ 0
odd_halves u e =
    let same : (2 * u + 1) / 2 ≡ u = omega arith in
    let lower : (2 * u + 1 - 1) / 2 ≡ u = omega arith in
    omega (
      arith,
      bit_and_halves (2 * u + 1) (2 * u + 1 - 1),
      ap₂ bit_and same lower,
      self_and u u (omega arith),
    )

-- A number with no bit in common with its predecessor is a power of two.
pub power_of_bits : (n v : ℕ) → v ≤ n → 0 < v → bit_and v (v - 1) ≡ 0 → (k : ℕ) × (v ≡ 2 ^ k)
power_of_bits zero v h p e = absurd (omega arith)
power_of_bits (suc n) v h p e = elim (ℕ_discrete (v % 2) 0) [
  | yes even ↦
      let twice : v ≡ 2 * (v / 2) = omega arith in
      let part : bit_and (v / 2) (v / 2 - 1) ≡ 0 =
        even_halves (v / 2) (omega arith) (sym (ap (λ (t : ℕ). bit_and t (t - 1)) twice) ∙ e) in
      let (k, half) = power_of_bits n (v / 2) (omega arith) (omega arith) part in
      (suc k, omega (arith, pow-suc 2 k))
  | no odd ↦
      let twice : v ≡ 2 * (v / 2) + 1 = omega arith in
      let none_left : v / 2 ≡ 0 =
        odd_halves (v / 2) (sym (ap (λ (t : ℕ). bit_and t (t - 1)) twice) ∙ e) in
      (0, omega arith)
]

-- The test of the source accepts the powers of two only.
pub is_power_of_two_sound : (v : ℕ) → is_power_of_two v ≡ true → (k : ℕ) × (v ≡ 2 ^ k)
unfolding is_power_of_two
is_power_of_two_sound v h = power_of_bits v v (omega arith) (ground arith) (ground arith)

power_passes : (k : ℕ) → is_power_of_two (2 ^ k) ≡ true
unfolding is_power_of_two
power_passes k =
    let pos_v : 0 < 2 ^ k = one-le-pow k 2 (omega arith) in
    let none_left : bit_and (2 ^ k) (2 ^ k - 1) ≡ 0 =
      mask_mod k (2 ^ k)
      ∙ ap (λ (t : ℕ). t % 2 ^ k) (sym (one-mul (2 ^ k)))
      ∙ mul-mod_left 1 (2 ^ k) in
    ground arith

-- The test of the source accepts exactly the powers of two.
pub is_power_of_two_iff : (v : ℕ) → (is_power_of_two v ≡ true) ↔ ((k : ℕ) × (v ≡ 2 ^ k))
is_power_of_two_iff v = (is_power_of_two_sound v, λ (k, e). rw e (power_passes k))
