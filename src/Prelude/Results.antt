-- ===== src/Prelude/Results.antt =====
-- Python exceptions as values: the classes of exceptions.py and the builtins that the modelled code
-- raises, without their messages. A ConfigurationError keeps the parameter it names, a
-- SubBlockCorruptedError the index of the block, and an HTTPError whether it is retryable.
use relia_dl.Prelude.{◌≡◌, ◌⊎◌, inl, inr, refl, String, ℕ, Bool, true, false}

pub data Error : Type 0 where
  value_error : Error
  index_error : Error
  key_error : Error
  overflow_error : Error
  configuration_error : String → Error
  storage_error : Error
  disk_full : Error
  manifest_error : Error
  sub_block_corrupted : ℕ → Error
  chunk_hash_mismatch : Error
  file_hash_mismatch : Error
  storage_permission : Error
  allocation_error : Error
  not_implemented : Error
  network_error : Error
  precondition_failed : Error
  range_not_supported : Error
  http_error : Bool → Error
  state_not_found : Error
  state_corrupted : Error

pub data Result {u} (T : Type u) : Type u where
  ok : T → Result T
  err : Error → Result T

infixl 5 ◌>>=◌ ◌>>◌
-- What follows a call runs on its value; an exception is passed on.
abbrev pub ◌>>=◌ {u v} : {S : Type u} {T : Type v} → Result S → (S → Result T) → Result T
err problem >>= next = err problem
ok value >>= next = next value

-- A statement without a value, and what follows it.
abbrev pub ◌>>◌ {v} : {T : Type v} → Result (Unit {0}) → Result T → Result T
err problem >> next = err problem
ok done >> next = next

-- `if test: raise e`
abbrev pub raise_if : Bool → Error → Result (Unit {0})
raise_if false problem = ok tt
raise_if true problem = err problem

-- A run that returns: each of its statements has.
pub bind_ok :
    {S T : Type 0} (m : Result S) (k : S → Result T) (v : T)
    → (m >>= k) ≡ ok v
    → (u : S) × (m ≡ ok u) × (k u ≡ ok v)
bind_ok (ok u) k v e = (u, refl, e)
bind_ok (err f) k v e = absurd (cc)

pub then_ok :
    {T : Type 0} (m : Result (Unit {0})) (k : Result T) (v : T)
    → (m >> k) ≡ ok v
    → (m ≡ ok tt) × (k ≡ ok v)
then_ok (ok u) k v e = (refl, e)
then_ok (err f) k v e = absurd (cc)

pub raise_if_ok : (b : Bool) (f : Error) → raise_if b f ≡ ok tt → b ≡ false
raise_if_ok false f e = refl
raise_if_ok true f e = absurd (cc)

pub Result-cases :
    {T : Type 0} (m : Result T) → ((v : T) × (m ≡ ok v)) ⊎ ((e : Error) × (m ≡ err e))
Result-cases (ok v) = inl (v, refl)
Result-cases (err e) = inr (e, refl)
