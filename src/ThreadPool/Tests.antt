-- ===== src/ThreadPool/Tests.antt =====
-- A pool of one worker.
use cxx.Common.{ℕ, ◌≤◌, ◌≡◌, refl, true, false, none, some, [], ◌∷◌, ◌++◌, length, total}
use cxx.ThreadPool.{
  testing, waiting, returned, Pool, new, commit, emplace, move, stop, commits, emplaces, worked,
  Run, done, next,
}
use cxx.ThreadPool.Runs.{run-tasks}
use cxx.ThreadPool.Stops.{waits, may_begin, moves_left, run_begun, run_moves, stop_ends}

-- The call of commit has tested stop_.
abbrev tested : Pool ℕ
tested = record {
  stopped = false;
  thread_num = 1;
  committing = 5 ∷ [];
  tasks = [];
  workers = testing ∷ [];
}

accepted : commit 5 (new 1) ≡ (true, tested)
unfolding commit new
accepted = refl

one_task : Run (new 1) (5 ∷ []) [] (emplace 5 [] tested)
one_task =
    next (new 1) tested (emplace 5 [] tested) [] [] (5 ∷ []) [] (commits (new 1) tested 5 accepted)
      (next tested (emplace 5 [] tested) (emplace 5 [] tested) (5 ∷ []) [] [] []
        (emplaces tested [] [] 5 refl) (done (emplace 5 [] tested)))

run-tasks_example : (new 1).tasks ++ 5 ∷ [] ≡ [] ++ (emplace 5 [] tested).tasks
run-tasks_example = run-tasks (new 1) (emplace 5 [] tested) (5 ∷ []) [] one_task

-- Stopped before it has locked: the task is put into the queue, and the worker returns.
abbrev late : Pool ℕ
late = record {
  stopped = true;
  thread_num = 1;
  committing = [];
  tasks = 5 ∷ [];
  workers = testing ∷ [];
}

abbrev ended : Pool ℕ
ended = record {
  stopped = true;
  thread_num = 1;
  committing = [];
  tasks = 5 ∷ [];
  workers = returned ∷ [];
}

leaves : move late testing ≡ some (record { phase = returned; count = 1; left = 5 ∷ [] })
unfolding move
leaves = refl

end_of_worker : Run (stop tested) (5 ∷ []) [] ended
unfolding stop emplace
end_of_worker =
    next (stop tested) late ended (5 ∷ []) [] [] [] (emplaces (stop tested) [] [] 5 refl) (
      next late ended ended [] [] [] []
        (worked late [] [] testing (record { phase = returned; count = 1; left = 5 ∷ [] }) refl
          leaves)
        (done ended))

stop_ends_example :
    (1 ≤ length tested.committing)
    × (0 ≤ total waits tested.workers)
    × (run_begun (stop tested) ended (5 ∷ []) [] end_of_worker ≤ total may_begin tested.workers)
    × (run_moves (stop tested) ended (5 ∷ []) [] end_of_worker ≤ total moves_left tested.workers)
stop_ends_example = stop_ends tested ended (5 ∷ []) [] end_of_worker

no_move : move (new {Task = ℕ} 1) waiting ≡ none
unfolding move new
no_move = refl
