-- ===== src/SafeQueue/Enhance/Locks/Tests.antt =====
-- Two pushes and a pop that overlap.
use cxx.Common.{ℕ, ◌≡◌, refl, Option, none, some, List, [], ◌∷◌, ◌++◌}
use cxx.SafeQueue.Enhance.Runs.{Request, pushes, try_pops, answers, fifo}
use cxx.SafeQueue.Enhance.Locks.{
  Shared, Move, calls_push, push_goes_on, calls_pop, pop_goes_on, push_step, pop_step, shared_step,
  run, start,
}
use cxx.SafeQueue.Enhance.Locks.Schedules.{to_the_end, locks_lem}
use cxx.SafeQueue.Enhance.{new}

-- The pop that starts while the second push is under way takes the first element.
abbrev overlapping : List (Move ℕ)
overlapping =
    calls_push 5
    ∷ push_goes_on
    ∷ calls_pop
    ∷ push_goes_on
    ∷ push_goes_on
    ∷ calls_push 6
    ∷ pop_goes_on
    ∷ push_goes_on
    ∷ pop_goes_on
    ∷ calls_pop
    ∷ push_goes_on
    ∷ pop_goes_on
    ∷ []

abbrev questions : List (Request ℕ)
questions = try_pops ∷ pushes 7 ∷ try_pops ∷ []

locks_lem_example :
    (s : Shared ℕ) × (inside : List ℕ) × (run (overlapping ++ to_the_end) start ≡ some s)
    × (s.popped ++ inside ≡ s.pushed)
    × (answers questions s.queue ≡ fifo questions inside)
locks_lem_example = locks_lem overlapping questions

abbrev both : Option (Shared ℕ) → Option (List ℕ × List ℕ)
both none = none
both (some s) = some (s.pushed, s.popped)

one_popped : both (run (overlapping ++ to_the_end) start) ≡ some (5 ∷ 6 ∷ [], 5 ∷ [])
unfolding run shared_step push_step pop_step new
one_popped = refl
