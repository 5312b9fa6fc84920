-- ===== src/Stealing/Numbers.antt =====
-- What work_stealer.py uses of Python's floats: two constants, tests, and arithmetic.
use relia_dl.Prelude.{ℕ, Bool}

pub record Floats (F : Type 0) : Type 0 where
  pub zero : F
  pub infinity : F
  pub is_finite : F → Bool
  pub below : F → F → Bool
  pub equal : F → F → Bool
  pub times : F → F → F
  pub over : F → F → F
  -- an int divided by a float
  pub int_over : ℕ → F → F
