-- ===== src/Breaker.antt =====
-- reliadl/algorithms/mirror_bandit.py: the circuit breaker of one mirror. `Ops` has its state and
-- methods, `Invariant` what every run of them keeps, `Opening` when it opens and for how long.
-- Times are whole numbers of clock ticks, a method's readings of the clock are its arguments, and
-- the product with the backoff multiplier is a parameter.
mod Ops
pub mod Invariant
pub mod Opening
unfoldable pub use Ops.*
