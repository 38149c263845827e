-- ===== src/Messaging/Tests.antt =====
-- A chain that takes the even numbers, and in which 0 is the CloseQueue.
use cxx.Common.{ℕ, ◌%◌, ◌≡◌, refl, Bool, none, some, Option, [], ◌∷◌, ◌==◌, if◌then◌else◌}
use cxx.Messaging.{Chain, wait, ◌▹◌, returned, dispatch, wait_and_dispatch}
use cxx.Messaging.Dispatch.{Waits, handlers, wait_and_dispatch_lem}

abbrev is_zero : ℕ → Bool
is_zero m = m == 0

abbrev take_even : ℕ → Option ℕ
take_even m = if m % 2 == 0 then some m else none

abbrev evens : Chain ℕ ℕ
evens = wait ▹ take_even

wait_and_dispatch_lem_example :
    Waits is_zero
      (handlers evens)
      (1 ∷ 3 ∷ 4 ∷ 5 ∷ [])
      (wait_and_dispatch is_zero evens (1 ∷ 3 ∷ 4 ∷ 5 ∷ []))
wait_and_dispatch_lem_example = wait_and_dispatch_lem is_zero evens (1 ∷ 3 ∷ 4 ∷ 5 ∷ [])

four_taken : wait_and_dispatch is_zero evens (1 ∷ 3 ∷ 4 ∷ 5 ∷ []) ≡ returned 4 (5 ∷ [])
unfolding wait_and_dispatch dispatch
four_taken = refl
