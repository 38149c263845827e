-- ===== src/SafeQueue/Tests.antt =====
-- The queues with one or two elements.
use cxx.Common.{ℕ, ◌≡◌, refl, none, some, List, [], ◌∷◌, ◌++◌}
use cxx.SafeQueue.{push, wait_pop}
use cxx.SafeQueue.Order.{Run, done, next, pushed, waited, run_fifo}
use cxx.SafeQueue.Enhance.Runs.{
  Request, pushes, wait_pops, try_pops, gives, is_waiting, answers, fifo, answers-fifo,
}
use cxx.SafeQueue.Enhance.Runs

abbrev five : ℕ
five = 5

taken : wait_pop (push five []) ≡ some (five, [])
unfolding wait_pop push
taken = refl

through : Run [] (five ∷ []) (five ∷ []) []
through =
    next [] (push five []) [] (five ∷ []) [] [] (five ∷ []) (pushed [] five) (
      next (push five []) [] [] [] (five ∷ []) [] [] (waited (push five []) [] five taken)
        (done []))

run_fifo_example : [] ++ five ∷ [] ≡ five ∷ [] ++ []
run_fifo_example = run_fifo [] [] (five ∷ []) (five ∷ []) through

abbrev calls : List (Request ℕ)
calls = pushes 5 ∷ pushes 6 ∷ try_pops ∷ wait_pops ∷ wait_pops ∷ try_pops ∷ []

in_order :
    fifo calls []
    ≡ Runs.done ∷ Runs.done ∷ gives (some 5) ∷ gives (some 6) ∷ is_waiting ∷ gives none ∷ []
unfolding fifo
in_order = refl
