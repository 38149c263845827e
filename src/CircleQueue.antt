-- ===== src/CircleQueue.antt =====
-- SafeCircleQueue of include/data_struct/SafeCircleQueue.hpp: a ring over Cap + 1 cells. Each
-- operation holds the one mutex from its first line to its last, so it is one change of the state.
pub mod Fifo
pub mod Drain
pub mod Runs
pub mod NoLock
mod Tests
use cxx.Common.{
  ℕ, zero, suc, ◌+◌, ◌%◌, Bool, true, false, Option, none, some, List, replicate, set, get_elem?,
  ◌==◌, if◌then◌else◌,
}

-- `data_` is a list of `max_size_` cells; `none` is a cell in which nothing has been constructed.
pub record Ring {ℓ} (T : Type ℓ) : Type ℓ where
  pub max_size : ℕ
  pub cells : List (Option T)
  pub head : ℕ
  pub tail : ℕ

module _ {ℓ} {T : Type ℓ} where
  -- The constructor, for the template argument Cap.
  unfoldable pub new : ℕ → Ring T
  new cap = record { max_size = cap + 1; cells = replicate (cap + 1) none; head = 0; tail = 0 }

  -- `emplace` of an element that is built from the arguments; a write out of bounds is no write.
  unfoldable pub emplace : Ring T → T → Bool × Ring T
  emplace q x = if (q.tail + 1) % q.max_size == q.head then (false, q) else (
    true,
    record q { cells = set q.cells q.tail (some x); tail = (q.tail + 1) % q.max_size },
  )

  abbrev pub cell_at : List (Option T) → ℕ → Option T
  cell_at cells i = elim (get_elem? cells i) [ none ↦ none | some cell ↦ cell ]

  -- `pop`: the result, and what is moved into `data`, `none` if nothing has been constructed there.
  -- The cell keeps the moved-from element.
  unfoldable pub pop : Ring T → Bool × Option T × Ring T
  pop q =
      if q.head == q.tail
      then (false, none, q)
      else (true, cell_at q.cells q.head, record q { head = (q.head + 1) % q.max_size })

  -- The loop of the destructor on fuel: `some n` after n rounds, `none` if the fuel has run out. The
  -- body destroys an element and changes neither `head_` nor `tail_`.
  unfoldable pub destroy_all : ℕ → Ring T → Option ℕ
  destroy_all zero q = none
  destroy_all (suc fuel) q = elim (q.head == q.tail) [
    | true ↦ some 0
    | false ↦ elim (destroy_all fuel q) [ none ↦ none | some n ↦ some (suc n) ]
  ]
