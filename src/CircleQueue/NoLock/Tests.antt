-- ===== src/CircleQueue/NoLock/Tests.antt =====
-- A ring for one element, with an emplace that comes in the middle of a pop.
use cxx.Common.{ℕ, ◌≤◌, ◌<◌, ◌≡◌, ◌⊎◌, refl, false, some, List, [], ◌∷◌, ◌++◌, map, length}
use cxx.CircleQueue.NoLock.{new}
use cxx.CircleQueue.NoLock.Pair.{Move, produce, consume, producer_step, consumer_step, run, begin}
use cxx.CircleQueue.NoLock.Order.{emplace_runs, pop_runs}
use cxx.CircleQueue.NoLock.Schedules.{run_accepted}
use cxx.CircleQueue.NoLock.Returns.{emplace_left, pop_left, calls_left}

abbrev five : ℕ
five = 5

-- The pop of the second round finds the element that the emplace has published.
abbrev schedule : List Move
schedule =
    produce ∷ produce ∷ produce ∷ consume ∷ produce ∷ consume ∷ consume ∷ consume ∷ produce
    ∷ consume ∷ consume ∷ consume ∷ consume ∷ consume ∷ []

five_received : (run schedule (begin 1 five [])).received ≡ some five ∷ []
unfolding run new
five_received = refl

run_accepted_example :
    (inside : List ℕ) × (length inside ≤ 1)
    × ((run schedule (begin 1 five [])).received ++ map some inside
        ≡ map some (run schedule (begin 1 five [])).accepted)
run_accepted_example = run_accepted 1 five [] schedule

calls_left_example :
    ((emplace_runs (run schedule (begin 1 five [])).emplacing ≡ false)
      ⊎ (emplace_left
            (producer_step
              (run schedule (begin 1 five []))
              (run schedule (begin 1 five [])).emplacing).emplacing
          < emplace_left (run schedule (begin 1 five [])).emplacing))
    × ((pop_runs (run schedule (begin 1 five [])).popping ≡ false)
        ⊎ (pop_left
              (consumer_step
                (run schedule (begin 1 five []))
                (run schedule (begin 1 five [])).popping).popping
            < pop_left (run schedule (begin 1 five [])).popping))
calls_left_example = calls_left 1 five [] schedule
