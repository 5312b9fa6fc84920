-- ===== src/Merkle/Encoding.antt =====
-- bytes.hex, bytes.fromhex (without white space between the digits), str.encode("utf-8") and
-- int.to_bytes(8, "big"). A byte string is the list of its values.
use relia_dl.Prelude.{
  ℕ, zero, suc, ◌+◌, ◌-◌, ◌*◌, ◌/◌, ◌%◌, ◌^◌, ◌&&◌, Option, none, some, List, [], ◌∷◌, ltb, leb,
  if◌then◌else◌,
}
use relia_dl.Prelude.Results.{Result, ok, err, value_error, overflow_error}
use relia_dl.Prelude.Text.{Text}

abbrev pub Bytes : Type 0
Bytes = List ℕ

unfoldable pub hex_digit : ℕ → ℕ
hex_digit d = if ltb d 10 then 48 + d else 87 + d

unfoldable pub to_hex : Bytes → Text
to_hex [] = []
to_hex (b ∷ bs) = hex_digit (b / 16) ∷ hex_digit (b % 16) ∷ to_hex bs

unfoldable pub digit_value : ℕ → Option ℕ
digit_value c =
    if leb 48 c && leb c 57
    then some (c - 48)
    else if leb 97 c && leb c 102
    then some (c - 87)
    else if leb 65 c && leb c 70
    then some (c - 55)
    else none

abbrev pub two_digits : Option ℕ → Option ℕ → Result Bytes → Result Bytes
two_digits none low rest = err value_error
two_digits (some h) none rest = err value_error
two_digits (some h) (some l) (err e) = err e
two_digits (some h) (some l) (ok bs) = ok ((16 * h + l) ∷ bs)

unfoldable pub from_hex : Text → Result Bytes
unfolding digit_value
from_hex [] = ok []
from_hex (h ∷ []) = err value_error
from_hex (h ∷ l ∷ t) = two_digits (digit_value h) (digit_value l) (from_hex t)

unfoldable pub encode_utf8 : Text → Bytes
encode_utf8 [] = []
encode_utf8 (c ∷ t) =
    let rest = encode_utf8 t in
    if ltb c 128
    then c ∷ rest
    else if ltb c 2048
    then (192 + c / 64) ∷ (128 + c % 64) ∷ rest
    else if ltb c 65536
    then (224 + c / 4096) ∷ (128 + c / 64 % 64) ∷ (128 + c % 64) ∷ rest
    else (240 + c / 262144) ∷ (128 + c / 4096 % 64) ∷ (128 + c / 64 % 64) ∷ (128 + c % 64) ∷ rest

-- The last `width` base-256 digits of `n`, behind which stands `tail`.
unfoldable pub big_endian : ℕ → ℕ → Bytes → Bytes
big_endian zero n tail = tail
big_endian (suc width) n tail = big_endian width (n / 256) ((n % 256) ∷ tail)

unfoldable pub to_bytes8 : ℕ → Result Bytes
unfolding big_endian
to_bytes8 n = if ltb n (2 ^ 64) then ok (big_endian 8 n []) else err overflow_error
