-- ===== src/Messaging.antt =====
-- include/atm/Message.hpp and include/atm/Dispatcher.hpp: a message queue, and the chains of
-- handlers that `wait().handle<A>(f).handle<B>(g)` builds.
--
-- A message type is any type `M` of which `is_close` says which message is a CloseQueue. The
-- dynamic_cast of a handler and the call of its function are one map `M → Option R`: `none` where
-- the cast fails. The mutex and the condition variable make each queue operation one step; a
-- `waitAndPop` that would wait has no result.
pub mod Chains
pub mod Dispatch
mod Tests
use cxx.Common.{ℕ, suc, Bool, true, false, Option, none, some, List, [], ◌∷◌, ◌++◌, if◌then◌else◌}

module _ {ℓ} {M : Type ℓ} where
  -- Queue::push
  abbrev pub push : List M → M → List M
  push q m = q ++ m ∷ []

  -- Queue::waitAndPop
  abbrev pub wait_and_pop : List M → Option (M × List M)
  wait_and_pop [] = none
  wait_and_pop (m ∷ q) = some (m, q)

-- `wait` is the Dispatcher at the head of a chain, `prev ▹ f` a TemplateDispatcher on `prev`.
infixl 20 ◌▹◌
pub data Chain {ℓ κ} (M : Type ℓ) (R : Type κ) : Type (ℓ ⊔ κ) where
  wait : Chain M R
  ◌▹◌ : Chain M R → (M → Option R) → Chain M R

-- The handler for the messages that `cast` accepts.
abbrev pub on {ℓ κ ι} :
    {M : Type ℓ} {A : Type κ} {R : Type ι} → (M → Option A) → (A → R) → M → Option R
on cast f m = elim (cast m) [ none ↦ none | some a ↦ some (f a) ]

-- What `dispatcher(msg)` does: true after a handler ran, false, or the exception CloseQueue.
pub data Outcome {κ} (R : Type κ) : Type κ where
  handled : R → Outcome R
  skipped : Outcome R
  thrown : Outcome R

-- How a `waitAndDispatcher` ends, with the queue that it leaves.
pub data Wait {ℓ κ} (M : Type ℓ) (R : Type κ) : Type (ℓ ⊔ κ) where
  returned : R → List M → Wait M R
  closed : List M → Wait M R
  blocked : Wait M R

module _ {ℓ κ} {M : Type ℓ} {R : Type κ} (is_close : M → Bool) where
  -- TemplateDispatcher::dispatcher, and Dispatcher::dispatcher at the end of the chain.
  unfoldable pub dispatch : Chain M R → M → Outcome R
  dispatch wait m = if is_close m then thrown else skipped
  dispatch (prev ▹ f) m = elim (f m) [ some r ↦ handled r | none ↦ dispatch prev m ]

  -- The loop of TemplateDispatcher::waitAndDispatcher on the messages that are there, in order. The
  -- loop of Dispatcher::waitAndDispatcher does the same, since its `dispatcher` never returns true.
  unfoldable pub wait_and_dispatch : Chain M R → List M → Wait M R
  unfolding dispatch
  wait_and_dispatch c [] = blocked
  wait_and_dispatch c (m ∷ q) = elim (dispatch c m) [
    | handled r ↦ returned r q
    | thrown ↦ closed q
    | skipped ↦ wait_and_dispatch c q
  ]

-- The flags `chained_` of a chain, the newest object first. `Dispatcher(queue)` begins a chain, and
-- the constructor that `handle` calls marks the object before.
unfoldable pub begin : List Bool
begin = false ∷ []

unfoldable pub handle : List Bool → List Bool
handle [] = []
handle (_ ∷ rest) = false ∷ true ∷ rest

-- The move constructor: the new object takes the flag, and the old one is marked. The old one is
-- destroyed too.
unfoldable pub move : List Bool → List Bool
move [] = []
move (c ∷ rest) = c ∷ true ∷ rest

-- How many of the destructors call `waitAndDispatcher`.
unfoldable pub waits : List Bool → ℕ
waits [] = 0
waits (c ∷ rest) = if c then waits rest else suc (waits rest)
