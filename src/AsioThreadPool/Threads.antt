-- ===== src/AsioThreadPool/Threads.antt =====
-- The threads of AsioThreadPool (include/AsioThreadPool.hpp): the constructor, what other code does
-- with the contexts, and stop. What the pool uses of Boost.Asio is a parameter.
pub mod Ends
mod Tests
use cxx.Common.{
  ℕ, zero, suc, ◌+◌, ◌-◌, ◌≡◌, Bool, true, false, ◌&&◌, List, [], ◌∷◌, map, replicate, ◌==◌,
  if◌then◌else◌,
}

-- A new io_context, the start and the end of a piece of work (on_work_started, on_work_finished),
-- how much work is outstanding, and whether run returns.
pub record IoContext (C : Type 0) : Type 0 where
  pub fresh : C
  pub work_started : C → C
  pub work_finished : C → C
  pub work : C → ℕ
  pub run_returns : C → Bool

-- What Boost.Asio says of them: a new context has no work, and run returns when there is none.
pub record Counts {C : Type 0} (io : IoContext C) : Type 0 where
  pub none_at_first : io.work io.fresh ≡ 0
  pub started : (c : C) → io.work (io.work_started c) ≡ io.work c + 1
  pub finished : (c : C) → io.work (io.work_finished c) ≡ io.work c - 1
  pub returns : (c : C) → io.run_returns c ≡ (io.work c == 0)

-- io_contexts_[i] with work_guards_[i], whether the guard owns its work, and the work that other code
-- has started there and not finished.
pub record Slot (C : Type 0) : Type 0 where
  pub context : C
  pub owns : Bool
  pub busy : ℕ

-- Other code starts or finishes a piece of work at the context with this index.
pub data Event : Type 0 where
  starts : ℕ → Event
  finishes : ℕ → Event

module _ {C : Type 0} (io : IoContext C) where
  -- The constructor
  unfoldable pub create : ℕ → List (Slot C)
  create thread_num =
      replicate thread_num (record { context = io.work_started io.fresh; owns = true; busy = 0 })

  abbrev pub start_work : Slot C → Slot C
  start_work s = record s { context = io.work_started s.context; busy = s.busy + 1 }

  -- Only work that has been started is finished.
  abbrev pub finish_work : Slot C → Slot C
  finish_work s =
      if s.busy == 0
      then s
      else record s { context = io.work_finished s.context; busy = s.busy - 1 }

  abbrev pub change_at : (Slot C → Slot C) → ℕ → List (Slot C) → List (Slot C)
  change_at f i [] = []
  change_at f zero (s ∷ ss) = f s ∷ ss
  change_at f (suc i) (s ∷ ss) = s ∷ change_at f i ss

  unfoldable pub run : List Event → List (Slot C) → List (Slot C)
  run [] ss = ss
  run (starts i ∷ es) ss = run es (change_at start_work i ss)
  run (finishes i ∷ es) ss = run es (change_at finish_work i ss)

  -- work.reset(): a guard that owns no work does nothing.
  abbrev pub reset : Slot C → Slot C
  reset s = if s.owns then record s { context = io.work_finished s.context; owns = false } else s

  -- The first loop of stop
  unfoldable pub reset_all : List (Slot C) → List (Slot C)
  reset_all ss = map reset ss

  -- The second one: every join returns, which it does when the run of its thread has.
  unfoldable pub joins : List (Slot C) → Bool
  joins [] = true
  joins (s ∷ ss) = io.run_returns s.context && joins ss
