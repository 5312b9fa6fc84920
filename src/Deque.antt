-- ===== src/Deque.antt =====
-- reliadl/algorithms/task_deque.py: the work-stealing deque of a worker. `Mask` has the
-- power-of-two arithmetic of the ring's addressing, `Ring` the circular buffer, `Ops` the deque and
-- its methods, `Window` which tasks a deque holds, `Laws` what each method does to them, `Runs` the
-- loops. Where a competing party may act inside a method, just before the compare-and-swap, its
-- effect is an argument of the method.
mod Mask
mod Ring
mod Ops
pub mod Window
pub mod Laws
pub mod Runs
unfoldable pub use Mask.{is_power_of_two}
unfoldable pub use Ring.*
unfoldable pub use Ops.*
