-- ===== src/SafeQueue/Enhance/Locks.antt =====
-- SafeQueueEnhance of include/data_struct/SafeQueue.hpp by any number of threads. A push holds the
-- tail's lock and a pop the head's, so at most one of each is on its way; their accesses to the nodes
-- and to `head_` and `tail_` follow one another in some order.
pub mod Agree
mod Pushes
mod Pops
mod Valid
pub mod Schedules
mod Tests
use cxx.Common.{ℕ, Option, none, some, List, [], ◌∷◌, ◌++◌, length, set, if◌then◌else◌}
use cxx.SafeQueue.Enhance.{QueueNode, Queue, blank, new, node_at, is_tail}

-- The push that holds the tail's lock, by what it does next: store the element in the last node, link
-- its new node, move `tail_` on. The new node has been allocated.
pub data Push {ℓ} (T : Type ℓ) : Type ℓ where
  no_push : Push T
  stores : T → ℕ → Push T
  links : T → ℕ → Push T
  moves_tail : T → ℕ → Push T

-- The pop that holds the head's lock, by what it does next: compare `head_` with `tail_`, move the
-- head out and read its element, move `head_` on, free the old node.
pub data Pop {ℓ} (T : Type ℓ) : Type ℓ where
  no_pop : Pop T
  tests_tail : Pop T
  takes : Pop T
  moves_head : ℕ → T → Pop T
  frees : ℕ → T → Pop T

-- `pushed`: the elements of the pushes that have returned, and `popped`: those that pops have given,
-- both in order.
pub record Shared {ℓ} (T : Type ℓ) : Type ℓ where
  pub queue : Queue T
  pub pushing : Push T
  pub popping : Pop T
  pub pushed : List T
  pub popped : List T

-- A thread calls push, or wait_pop or try_pop, or takes part in a lock that is held, where it does
-- nothing; or the call that has the lock makes its next step.
pub data Move {ℓ} (T : Type ℓ) : Type ℓ where
  calls_push : T → Move T
  push_goes_on : Move T
  calls_pop : Move T
  pop_goes_on : Move T

module _ {ℓ} {T : Type ℓ} where
  -- The last node with the element
  abbrev pub store_at_tail : Queue T → T → Option (Queue T)
  store_at_tail q x = elim (node_at q.nodes q.tail) [
    | none ↦ none
    | some old ↦
        some (record q { nodes = set q.nodes q.tail (some (record old { value = some x })) })
  ]

  -- and with its link. Its `next` was null, so the assignment frees nothing; a `next` that is not
  -- null is not modelled.
  abbrev pub link_at_tail : Queue T → ℕ → Option (Queue T)
  link_at_tail q n = elim (node_at q.nodes q.tail) [
    | none ↦ none
    | some old ↦ elim old.next [
      | some m ↦ none
      | none ↦ some (record q { nodes = set q.nodes q.tail (some (record old { next = some n })) })
    ]
  ]

  abbrev then_push : Option (Queue T) → Push T → Option (Queue T × Push T)
  then_push none p = none
  then_push (some q) p = some (q, p)

  -- The next step of a push; `none`: an access to a freed node.
  unfoldable pub push_step : Queue T → Push T → Option (Queue T × Push T)
  push_step q no_push = some (q, no_push)
  push_step q (stores x n) = then_push (store_at_tail q x) (links x n)
  push_step q (links x n) = then_push (link_at_tail q n) (moves_tail x n)
  push_step q (moves_tail x n) = some (record q { tail = n }, no_push)

  abbrev pub take_at : Queue T → ℕ → Option (Queue T × Pop T)
  take_at q h = elim (node_at q.nodes h) [
    | none ↦ none
    | some old ↦ elim old.value [
      | none ↦ none
      | some x ↦ some (record q { head = none }, moves_head h x)
    ]
  ]

  -- The next step of a pop. Where there is nothing, try_pop returns false, and wait_pop gives the
  -- lock back and begins again when it is woken.
  unfoldable pub pop_step : Queue T → Pop T → Option (Queue T × Pop T)
  pop_step q no_pop = some (q, no_pop)
  pop_step q tests_tail = some (q, if is_tail q.head q.tail then no_pop else takes)
  pop_step q takes = elim q.head [ none ↦ none | some h ↦ take_at q h ]
  pop_step q (moves_head h x) = elim (node_at q.nodes h) [
    | none ↦ none
    | some old ↦ some (record q { head = old.next }, frees h x)
  ]
  pop_step q (frees h x) = elim (node_at q.nodes h) [
    | none ↦ none
    | some old ↦ some (record q { nodes = set q.nodes h none }, no_pop)
  ]

  -- What the last step of a call gives.
  abbrev pub completes : Push T → List T
  completes (moves_tail x n) = x ∷ []
  completes _ = []

  abbrev pub gives : Pop T → List T
  gives (frees h x) = x ∷ []
  gives _ = []

  abbrev pub after_push : Shared T → Option (Queue T × Push T) → Option (Shared T)
  after_push s none = none
  after_push s (some (q, p)) =
      some (record s { queue = q; pushing = p; pushed = s.pushed ++ completes s.pushing })

  abbrev pub after_pop : Shared T → Option (Queue T × Pop T) → Option (Shared T)
  after_pop s none = none
  after_pop s (some (q, p)) =
      some (record s { queue = q; popping = p; popped = s.popped ++ gives s.popping })

  -- push allocates its node, and takes the lock.
  abbrev pub enter_push : Shared T → Push T → T → Shared T
  enter_push s no_push x = record s {
    queue = record s.queue { nodes = s.queue.nodes ++ some blank ∷ [] };
    pushing = stores x (length s.queue.nodes);
  }
  enter_push s (stores y n) x = s
  enter_push s (links y n) x = s
  enter_push s (moves_tail y n) x = s

  abbrev pub enter_pop : Shared T → Pop T → Shared T
  enter_pop s no_pop = record s { popping = tests_tail }
  enter_pop s tests_tail = s
  enter_pop s takes = s
  enter_pop s (moves_head h x) = s
  enter_pop s (frees h x) = s

  unfoldable pub shared_step : Shared T → Move T → Option (Shared T)
  shared_step s (calls_push x) = some (enter_push s s.pushing x)
  shared_step s push_goes_on = after_push s (push_step s.queue s.pushing)
  shared_step s calls_pop = some (enter_pop s s.popping)
  shared_step s pop_goes_on = after_pop s (pop_step s.queue s.popping)

  unfoldable pub run : List (Move T) → Shared T → Option (Shared T)
  run [] s = some s
  run (m ∷ ms) s = elim (shared_step s m) [ none ↦ none | some s' ↦ run ms s' ]

  -- A queue that has just been constructed
  abbrev pub start : Shared T
  start = record { queue = new; pushing = no_push; popping = no_pop; pushed = []; popped = [] }
