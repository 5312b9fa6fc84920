-- ===== src/Deque/Ring.antt =====
-- _CircularArray: a ring of slots addressed by indices that only grow.
use Prim.Native.Nat.{bit_and}
use relia_dl.Prelude.{ℕ, zero, suc, ◌+◌, ◌-◌, ◌*◌, Option, none, List, get_or, set, replicate}

pub record Ring (A : Type 0) : Type 0 where
  pub capacity : ℕ
  pub mask : ℕ
  pub buffer : List (Option A)

module _ {A : Type 0} where
  unfoldable pub new_ring : ℕ → Ring A
  new_ring capacity = record {
    capacity = capacity;
    mask = capacity - 1;
    buffer = replicate capacity none;
  }

  -- A masked index is never out of range, so the default stands for no behaviour of the source.
  unfoldable pub get : Ring A → ℕ → Option A
  get r index = get_or r.buffer (bit_and index r.mask) none

  unfoldable pub put : Ring A → ℕ → Option A → Ring A
  put r index task = record r { buffer = set r.buffer (bit_and index r.mask) task }

  -- `for index in range(top, bottom): larger.put(index, self.get(index))`, of `count` rounds.
  unfoldable pub copy : ℕ → ℕ → Ring A → Ring A → Ring A
  unfolding get put
  copy zero index from larger = larger
  copy (suc count) index from larger =
      copy count (index + 1) from (put larger index (get from index))

  unfoldable pub grow : Ring A → ℕ → ℕ → Ring A
  unfolding copy new_ring
  grow r top bottom = copy (bottom - top) top r (new_ring (r.capacity * 2))
