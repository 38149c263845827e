-- ===== src/ThreadPool.antt =====
-- ThreadPool of include/ThreadPool.hpp: the queue of tasks, and what each worker thread is doing.
-- The tasks, and how many threads the machine runs at once, are parameters.
pub mod Runs
pub mod Stops
mod Tests
use cxx.Common.{
  ℕ, suc, ◌+◌, ◌-◌, ◌≡◌, Bool, true, false, Option, none, some, List, [], ◌∷◌, ◌++◌, replicate, ltb,
  if◌then◌else◌,
}

-- Where a worker is: at the test of the loop, at the wait, with a task it has taken, in the task, or
-- returned.
pub data Phase {ℓ} (Task : Type ℓ) : Type ℓ where
  testing : Phase Task
  waiting : Phase Task
  taken : Task → Phase Task
  running : Task → Phase Task
  returned : Phase Task

-- `committing`: the tasks of the calls of commit that have tested stop_, and have not locked yet.
pub record Pool {ℓ} (Task : Type ℓ) : Type ℓ where
  pub stopped : Bool
  pub thread_num : ℕ
  pub committing : List Task
  pub tasks : List Task
  pub workers : List (Phase Task)

-- thread_num_ as the constructor sets it
abbrev pub threads : ℕ → ℕ
threads concurrency = if ltb 1 concurrency then concurrency else 1

-- The constructor with start: nobody has the pool before it is done, so no task comes meanwhile.
unfoldable pub new {ℓ} : {Task : Type ℓ} → ℕ → Pool Task
new concurrency = record {
  stopped = false;
  thread_num = threads concurrency;
  committing = [];
  tasks = [];
  workers = replicate (threads concurrency) testing;
}

-- What a worker's next move does to its phase, to thread_num_ and to the tasks.
pub record Moved {ℓ} (Task : Type ℓ) : Type ℓ where
  pub phase : Phase Task
  pub count : ℕ
  pub left : List Task

module _ {ℓ} {Task : Type ℓ} where
  -- commit up to its lock: the test of stop_; `false` where it returns a future without a task.
  unfoldable pub commit : Task → Pool Task → Bool × Pool Task
  commit t p =
      if p.stopped then (false, p) else (true, record p { committing = p.committing ++ t ∷ [] })

  -- The rest of commit, under the lock; `others` are the other calls that are on their way.
  unfoldable pub emplace : Task → List Task → Pool Task → Pool Task
  emplace t others p = record p { committing = others; tasks = p.tasks ++ t ∷ [] }

  abbrev pub take_task : Bool → ℕ → List Task → Option (Moved Task)
  take_task stopped n [] =
      if stopped then some (record { phase = returned; count = n; left = [] }) else none
  take_task stopped n (t ∷ ts) = some (record { phase = taken t; count = n; left = ts })

  -- One move of a worker; `none` while its wait goes on, and after its end.
  unfoldable pub move : Pool Task → Phase Task → Option (Moved Task)
  move p testing = some (record {
    phase = if p.stopped then returned else waiting;
    count = p.thread_num;
    left = p.tasks;
  })
  move p waiting = take_task p.stopped p.thread_num p.tasks
  move p (taken t) = some (record { phase = running t; count = p.thread_num - 1; left = p.tasks })
  move p (running t) = some (record { phase = testing; count = p.thread_num + 1; left = p.tasks })
  move p returned = none

  unfoldable pub stop : Pool Task → Pool Task
  stop p = record p { stopped = true }

  -- The task that a move takes off the queue
  abbrev pub taken_off : Phase Task → Phase Task → List Task
  taken_off waiting (taken t) = t ∷ []
  taken_off _ _ = []

  -- One thing that happens, with the tasks it puts into the queue and those it takes off.
  pub data Step : Pool Task → List Task → List Task → Pool Task → Type ℓ where
    commits : (p p' : Pool Task) (t : Task) → commit t p ≡ (true, p') → Step p [] [] p'
    emplaces :
        (p : Pool Task) (before after : List Task) (t : Task)
        → p.committing ≡ before ++ t ∷ after
        → Step p (t ∷ []) [] (emplace t (before ++ after) p)
    refused : (p p' : Pool Task) (t : Task) → commit t p ≡ (false, p') → Step p [] [] p'
    stopping : (p : Pool Task) → Step p [] [] (stop p)
    worked :
        (p : Pool Task) (before after : List (Phase Task)) (now : Phase Task) (m : Moved Task)
        → p.workers ≡ before ++ now ∷ after
        → move p now ≡ some m
        → Step p []
            (taken_off now m.phase)
            (record p { thread_num = m.count; tasks = m.left; workers = before ++ m.phase ∷ after })

  pub data Run : Pool Task → List Task → List Task → Pool Task → Type ℓ where
    done : (p : Pool Task) → Run p [] [] p
    next :
        (p₀ p₁ p₂ : Pool Task) (ins₁ outs₁ ins₂ outs₂ : List Task)
        → Step p₀ ins₁ outs₁ p₁
        → Run p₁ ins₂ outs₂ p₂
        → Run p₀ (ins₁ ++ ins₂) (outs₁ ++ outs₂) p₂
