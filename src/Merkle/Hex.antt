-- ===== src/Merkle/Hex.antt =====
-- A digest written in hexadecimal is read back, and is in the form that verify_inclusion brings its
-- root into.
use mathlib.Core.List.{reverse, reverse-cons, reverse-reverse}
use relia_dl.Prelude.{
  All-snoc, ℕ, ◌/◌, ◌%◌, ◌<◌, ◌≤◌, ◌≡◌, ◌⊎◌, refl, ap, ◌∙◌, false, [], ◌∷◌, arith, All, some,
}
use native.Mathlib.Nat.{div-add-mod, mod-lt}
use relia_dl.Prelude.Results.{ok}
use relia_dl.Prelude.Text.{Text, strip, lower, lstrip, is_space, lower_code}
use relia_dl.Merkle.Encoding.{Bytes, hex_digit, digit_value, to_hex, from_hex}

abbrev pub IsByte : ℕ → Type 0
IsByte b = b < 256

digit_value-hex_digit : (d : ℕ) → d < 16 → digit_value (hex_digit d) ≡ some d
unfolding digit_value hex_digit
digit_value-hex_digit d h = ground arith

pub from_hex-to_hex : (bs : Bytes) → All IsByte bs → from_hex (to_hex bs) ≡ ok bs
unfolding from_hex to_hex
from_hex-to_hex [] h = refl
from_hex-to_hex (b ∷ bs) (h, hs) =
    let parts = div-add-mod b 16 in
    let low : b % 16 < 16 = mod-lt b (omega arith) in
    rw
      (
        digit_value-hex_digit (b / 16) (omega arith),
        digit_value-hex_digit (b % 16) (omega arith),
        from_hex-to_hex bs hs,
      )
      (ap (λ n. ok (n ∷ bs)) (omega arith))

-- A lower case hexadecimal digit, as to_hex writes it.
abbrev IsDigit : ℕ → Type 0
IsDigit c = ((48 ≤ c) × (c ≤ 57)) ⊎ ((97 ≤ c) × (c ≤ 102))

hex_digit-IsDigit : (d : ℕ) → d < 16 → IsDigit (hex_digit d)
unfolding hex_digit
hex_digit-IsDigit d h = ground arith

to_hex-All : (bs : Bytes) → All IsByte bs → All IsDigit (to_hex bs)
unfolding to_hex
to_hex-All [] h = tt
to_hex-All (b ∷ bs) (h, hs) = (
  hex_digit-IsDigit (b / 16) (omega (arith, div-add-mod b 16)),
  (hex_digit-IsDigit (b % 16) (mod-lt b (omega arith)), to_hex-All bs hs),
)

lower_code-IsDigit : (c : ℕ) → IsDigit c → lower_code c ≡ c
unfolding lower_code
lower_code-IsDigit c h = ground arith

is_space-IsDigit : (c : ℕ) → IsDigit c → is_space c ≡ false
unfolding is_space
is_space-IsDigit c h = ground arith

lower-All : (t : Text) → All IsDigit t → lower t ≡ t
unfolding lower
lower-All [] h = refl
lower-All (c ∷ t) (h, hs) = rw (lower_code-IsDigit c h, lower-All t hs) refl

lstrip-All : (t : Text) → All IsDigit t → lstrip t ≡ t
unfolding lstrip
lstrip-All [] h = refl
lstrip-All (c ∷ t) (h, hs) = rw (is_space-IsDigit c h) refl

All-reverse : (t : Text) → All IsDigit t → All IsDigit (reverse t)
All-reverse [] h = tt
All-reverse (c ∷ t) (h, hs) =
    rw (reverse-cons c t) (All-snoc IsDigit (reverse t) c (All-reverse t hs) h)

strip-All : (t : Text) → All IsDigit t → strip t ≡ t
unfolding strip
strip-All t h =
    ap (λ u. reverse (lstrip (reverse u))) (lstrip-All t h)
    ∙ ap reverse (lstrip-All (reverse t) (All-reverse t h))
    ∙ reverse-reverse t

pub clean-to_hex : (bs : Bytes) → All IsByte bs → lower (strip (to_hex bs)) ≡ to_hex bs
clean-to_hex bs h =
    ap lower (strip-All (to_hex bs) (to_hex-All bs h)) ∙ lower-All (to_hex bs) (to_hex-All bs h)
