-- ===== src/Engine/Errors.antt =====
-- Whether an exception is retryable (reliadl/exceptions.py), the mapping of a status to an
-- exception (_http_error of reliadl/download_engine.py), and normalize_hash and
-- constant_time_compare of reliadl/hash_verifier.py.
use relia_dl.Prelude.{
  ℕ, Bool, true, false, ◌&&◌, ◌||◌, Option, none, some, List, [], ◌∷◌, leb, ◌==◌, if◌then◌else◌,
}
use relia_dl.Prelude.Results.{
  Error, sub_block_corrupted, chunk_hash_mismatch, network_error, precondition_failed, http_error,
}
use relia_dl.Prelude.Text.{Text, codes, strip, lower, strip_prefix, text_eq}

-- ReliaDLError.is_retryable, from `default_retryable` of each class and HTTPError's own rule.
unfoldable pub is_retryable : Error → Bool
is_retryable (sub_block_corrupted block) = true
is_retryable chunk_hash_mismatch = true
is_retryable network_error = true
is_retryable (http_error retryable) = retryable
is_retryable _ = false

-- HTTPError's rule: 408, 429 and 500 to 599.
unfoldable pub is_retryable_status : ℕ → Bool
is_retryable_status status = status == 408 || status == 429 || (leb 500 status && leb status 599)

unfoldable pub http_error_of : ℕ → Error
http_error_of status =
    if status == 412
    then precondition_failed
    else if leb 400 status
    then http_error (is_retryable_status status)
    else http_error false

unfoldable pub is_hex : ℕ → Bool
is_hex c = (leb 48 c && leb c 57) || (leb 97 c && leb c 102)

unfoldable pub all_hex : Text → Bool
all_hex [] = true
all_hex (c ∷ t) = let rest = all_hex t in is_hex c && rest

-- The first prefix that the text starts with is taken off.
unfoldable pub without_prefix : List Text → Text → Text
without_prefix [] t = t
without_prefix (p ∷ ps) t =
    let rest = without_prefix ps t in elim (strip_prefix p t) [ none ↦ rest | some tail ↦ tail ]

-- A text that is a digest, or nothing where normalize_hash raises ConfigurationError.
unfoldable pub hex_only : Text → Option Text
hex_only [] = none
hex_only (c ∷ t) = if all_hex (c ∷ t) then some (c ∷ t) else none

unfoldable pub normalize_hash : Text → Option Text
normalize_hash h =
    hex_only
      (without_prefix (codes "sha256:" ∷ codes "sha384:" ∷ codes "sha512:" ∷ []) (lower (strip h)))

abbrev same_digest : Option Text → Option Text → Bool
same_digest none b = false
same_digest (some a) none = false
same_digest (some a) (some b) = text_eq a b

unfoldable pub constant_time_compare : Text → Text → Bool
constant_time_compare a b = same_digest (normalize_hash a) (normalize_hash b)
