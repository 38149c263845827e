-- ===== src/CircleQueue/Tests.antt =====
-- A ring of three places.
use cxx.Common.{
  zero, suc, get_elem?, ℕ, ◌<◌, ◌≡◌, refl, true, false, none, some, List, [], ◌∷◌, arith,
}
use cxx.CircleQueue.{Ring, new, destroy_all}
use cxx.CircleQueue.Fifo.{Holds, around}
use cxx.CircleQueue.Runs.{Request, emplaces, pops, answers, bounded, answers-bounded}
use cxx.CircleQueue.Drain.{destroy_all-Holds}

-- It has gone round: the oldest element is in the last cell.
abbrev wrapped : Ring ℕ
wrapped = record { max_size = 3; cells = some 8 ∷ none ∷ some 7 ∷ []; head = 2; tail = 1 }

wrapped_cell :
    (i : ℕ) → i < 2 → get_elem? wrapped.cells (around 3 2 i) ≡ some (get_elem? (7 ∷ 8 ∷ []) i)
wrapped_cell zero l = refl
wrapped_cell (suc zero) l = refl
wrapped_cell (suc (suc i)) l = absurd (omega arith)

wrapped-Holds : Holds wrapped (7 ∷ 8 ∷ [])
wrapped-Holds = record {
  storage = refl;
  head_in = omega arith;
  room = omega arith;
  tail_at = refl;
  cell = wrapped_cell;
}

abbrev calls : List (Request ℕ)
calls = emplaces 7 ∷ emplaces 8 ∷ emplaces 9 ∷ pops ∷ emplaces 9 ∷ pops ∷ pops ∷ pops ∷ []

answers-bounded_example : answers calls (new 2) ≡ bounded 2 calls []
answers-bounded_example = answers-bounded 2 calls

-- The third element is refused, and the last pop.
third_refused :
    bounded 2 calls []
    ≡ (true, none)
      ∷ (true, none)
      ∷ (false, none)
      ∷ (true, some 7)
      ∷ (true, none)
      ∷ (true, some 8)
      ∷ (true, some 9)
      ∷ (false, none)
      ∷ []
unfolding bounded
third_refused = refl

destroy_all-Holds_example : destroy_all 100 wrapped ≡ none
destroy_all-Holds_example = destroy_all-Holds 100 wrapped 7 (8 ∷ []) wrapped-Holds
