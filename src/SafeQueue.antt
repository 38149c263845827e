-- ===== src/SafeQueue.antt =====
-- SafeQueue of include/data_struct/SafeQueue.hpp, as the list of its elements. A call holds the
-- lock but while it waits, so one that returns is one change of the state; a wait_pop whose wait
-- does not end yet is `none`.
pub mod Enhance
pub mod Order
mod Tests
use cxx.Common.{Bool, true, false, Option, none, some, List, [], ◌∷◌, ◌++◌}

module _ {ℓ} {T : Type ℓ} where
  unfoldable pub push : T → List T → List T
  push x queue = queue ++ x ∷ []

  unfoldable pub wait_pop : List T → Option (T × List T)
  wait_pop [] = none
  wait_pop (x ∷ rest) = some (x, rest)

  unfoldable pub try_pop : List T → Option T × List T
  try_pop [] = (none, [])
  try_pop (x ∷ rest) = (some x, rest)

  unfoldable pub empty : List T → Bool
  empty [] = true
  empty (x ∷ rest) = false
