-- ===== src/Stealing.antt =====
-- reliadl/algorithms/work_stealer.py: who is slow, and how the rest of a slow range is cut in two.
-- `Reports` has the progress report, `Detector` the straggler predicate, `Bisection` the cut of one
-- range, `Coordinator` one epoch of planning; `Halves`, `Slowness`, `Rounds`, `Epoch` and `Plans`
-- have the proofs. Floating point numbers are a parameter, the record `Floats` of `Numbers`.
mod Numbers
mod Reports
mod Detector
mod Bisection
mod Coordinator
pub mod Halves
pub mod Slowness
mod Rounds
mod Epoch
pub mod Plans
unfoldable pub use Numbers.*
unfoldable pub use Reports.*
unfoldable pub use Detector.*
unfoldable pub use Bisection.*
unfoldable pub use Coordinator.*
