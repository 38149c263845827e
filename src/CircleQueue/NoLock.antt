-- ===== src/CircleQueue/NoLock.antt =====
-- SafeCircleQueNOLock of include/data_struct/SafeCircleQueue.hpp: a ring without a lock. A step of a
-- call is one access to an atomic, or one to a cell; the phase of a call says which is next, with
-- what its local variables hold. The accesses of the threads follow one another in some order.
pub mod Pair
pub mod Order
pub mod Schedules
pub mod Returns
mod Tests
use cxx.Common.{
  ℕ, zero, suc, ◌+◌, ◌%◌, Bool, true, false, Option, none, some, List, replicate, set, ◌==◌,
  if◌then◌else◌,
}
use cxx.CircleQueue.{Ring, cell_at}
use cxx.CircleQueue

pub record Queue {ℓ} (T : Type ℓ) : Type ℓ where
  pub max_size : ℕ
  pub cells : List (Option T)
  pub head : ℕ
  pub tail : ℕ
  pub tail_up : ℕ

-- A call of emplace, by what it does next: load `tail_`, test for a full ring, move `tail_` on,
-- construct the element, move `tail_up_` on. Or it has returned.
pub data Emplace {ℓ} (T : Type ℓ) : Type ℓ where
  loads_tail : T → Emplace T
  tests_full : T → ℕ → Emplace T
  moves_tail : T → ℕ → Emplace T
  constructs : T → ℕ → Emplace T
  moves_tail_up : T → ℕ → Emplace T
  emplaced : T → Bool → Emplace T

-- A call of pop, by what it does next: load `head_`, compare it with `tail_`, compare it with
-- `tail_up_`, copy the element, move `head_` on. Or it has returned true with the element, which is
-- `none` if nothing had been constructed in the cell, or false.
pub data Pop {ℓ} (T : Type ℓ) : Type ℓ where
  loads_head : Pop T
  tests_tail : ℕ → Pop T
  tests_tail_up : ℕ → Pop T
  copies : ℕ → Pop T
  moves_head : ℕ → Option T → Pop T
  gives : Option T → Pop T
  finds_none : Pop T

module _ {ℓ} {T : Type ℓ} where
  -- The constructor, for the template argument Cap.
  unfoldable pub new : ℕ → Queue T
  new cap = record {
    max_size = cap + 1;
    cells = replicate (cap + 1) none;
    head = 0;
    tail = 0;
    tail_up = 0;
  }

  -- The next step of a call of emplace. A compare_exchange_strong that fails starts its loop again.
  unfoldable pub emplace_step : Queue T → Emplace T → Queue T × Emplace T
  emplace_step q (loads_tail x) = (q, tests_full x q.tail)
  emplace_step q (tests_full x t) =
      (q, if (t + 1) % q.max_size == q.head then emplaced x false else moves_tail x t)
  emplace_step q (moves_tail x t) =
      if q.tail == t
      then (record q { tail = (t + 1) % q.max_size }, constructs x t)
      else (q, loads_tail x)
  emplace_step q (constructs x t) = (record q { cells = set q.cells t (some x) }, moves_tail_up x t)
  emplace_step q (moves_tail_up x t) =
      if q.tail_up == t
      then (record q { tail_up = (t + 1) % q.max_size }, emplaced x true)
      else (q, moves_tail_up x t)
  emplace_step q (emplaced x b) = (q, emplaced x b)

  -- The next step of a call of pop
  unfoldable pub pop_step : Queue T → Pop T → Queue T × Pop T
  pop_step q loads_head = (q, tests_tail q.head)
  pop_step q (tests_tail h) = (q, if h == q.tail then finds_none else tests_tail_up h)
  pop_step q (tests_tail_up h) = (q, if h == q.tail_up then finds_none else copies h)
  pop_step q (copies h) = (q, moves_head h (cell_at q.cells h))
  pop_step q (moves_head h x) =
      if q.head == h then (record q { head = (h + 1) % q.max_size }, gives x) else (q, loads_head)
  pop_step q (gives x) = (q, gives x)
  pop_step q finds_none = (q, finds_none)

  -- The destructor: the loop is that of SafeCircleQueue, on `head_` and `tail_`.
  unfoldable pub destroy_all : ℕ → Queue T → Option ℕ
  destroy_all fuel q =
      CircleQueue.destroy_all fuel
        (record { max_size = q.max_size; cells = q.cells; head = q.head; tail = q.tail })
