-- ===== src/SafeStack.antt =====
-- SafeStack of include/data_struct/SafeStack.hpp, as the list of its elements, the top first. A call
-- holds the lock but while it waits; a wait_pop whose wait does not end yet is `none`.
pub mod Order
use cxx.Common.{Bool, true, false, Option, none, some, List, [], ◌∷◌}

module _ {ℓ} {T : Type ℓ} where
  unfoldable pub push : T → List T → List T
  push x stack = x ∷ stack

  unfoldable pub wait_pop : List T → Option (T × List T)
  wait_pop [] = none
  wait_pop (x ∷ rest) = some (x, rest)

  unfoldable pub try_pop : List T → Option T × List T
  try_pop [] = (none, [])
  try_pop (x ∷ rest) = (some x, rest)

  unfoldable pub empty : List T → Bool
  empty [] = true
  empty (x ∷ rest) = false
