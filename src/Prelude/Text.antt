-- ===== src/Prelude/Text.antt =====
-- Text as the list of its code points, and the str methods that the source normalises digests with.
-- White space and case are those of ASCII, which covers every hexadecimal digest.
use mathlib.Core.List.{reverse}
use Prim.Native.Char.{code}
use Prim.Native.String.{String}
use relia_dl.Prelude.{
  ℕ, ◌+◌, Bool, true, false, ◌&&◌, ◌||◌, List, [], ◌∷◌, Option, none, some, leb, ◌==◌,
  if◌then◌else◌,
}

abbrev pub Text : Type 0
Text = List ℕ

abbrev pub codes : String → Text
codes String.[] = []
codes (String.◌∷◌ c s) = code c ∷ codes s

unfoldable pub is_space : ℕ → Bool
is_space c = c == 32 || leb 9 c && leb c 13 || leb 28 c && leb c 31

unfoldable pub lower_code : ℕ → ℕ
lower_code c = if leb b'A' c && leb c b'Z' then c + 32 else c

-- str.lower
unfoldable pub lower : Text → Text
unfolding lower_code
lower [] = []
lower (c ∷ t) = lower_code c ∷ lower t

unfoldable pub lstrip : Text → Text
unfolding is_space
lstrip [] = []
lstrip (c ∷ t) = let rest = lstrip t in if is_space c then rest else c ∷ t

-- str.strip
unfoldable pub strip : Text → Text
unfolding lstrip
strip t = reverse (lstrip (reverse (lstrip t)))

-- The rest of the text behind a prefix, if it starts with it.
unfoldable pub strip_prefix : Text → Text → Option Text
strip_prefix [] t = some t
strip_prefix (p ∷ ps) [] = none
strip_prefix (p ∷ ps) (c ∷ t) = let rest = strip_prefix ps t in if p == c then rest else none

unfoldable pub text_eq : Text → Text → Bool
text_eq [] [] = true
text_eq (a ∷ s) (b ∷ t) = let rest = text_eq s t in if a == b then rest else false
text_eq _ _ = false
