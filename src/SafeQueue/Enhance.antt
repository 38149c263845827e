-- ===== src/SafeQueue/Enhance.antt =====
-- SafeQueueEnhance of include/data_struct/SafeQueue.hpp: a chain of nodes on a store, with an empty
-- last node. An address is an index into the store; a node that has been freed is `none`. Here
-- a call is one change of the state; the child Locks has the accesses of calls that overlap.
pub mod Fifo
pub mod Runs
pub mod Locks
use cxx.Common.{
  ℕ, Bool, true, false, Option, none, some, List, [], ◌∷◌, ◌++◌, length, get_elem?, set, ◌==◌,
  if◌then◌else◌,
}

-- A null pointer is `none`.
pub record QueueNode {ℓ} (T : Type ℓ) : Type ℓ where
  pub value : Option T
  pub next : Option ℕ

-- `head_` is `none` when the owning pointer is null.
pub record Queue {ℓ} (T : Type ℓ) : Type ℓ where
  pub nodes : List (Option (QueueNode T))
  pub head : Option ℕ
  pub tail : ℕ

-- How a call ends: it returns, it is still waiting, or it has reached an access to a freed node or
-- through a null pointer.
pub data Call {ℓ} (A : Type ℓ) : Type ℓ where
  returns : A → Call A
  waits : Call A
  faults : Call A

-- head_.get() == tail_
abbrev pub is_tail : Option ℕ → ℕ → Bool
is_tail none t = false
is_tail (some h) t = h == t

module _ {ℓ} {T : Type ℓ} where
  abbrev pub blank : QueueNode T
  blank = record { value = none; next = none }

  unfoldable pub new : Queue T
  new = record { nodes = some blank ∷ []; head = some 0; tail = 0 }

  abbrev pub node_at : List (Option (QueueNode T)) → ℕ → Option (QueueNode T)
  node_at nodes a = elim (get_elem? nodes a) [ none ↦ none | some n ↦ n ]

  -- push: a new last node; the old one takes the element. Its `next` was null, so the assignment
  -- frees nothing; a `next` that is not null is not modelled.
  unfoldable pub push : T → Queue T → Call (Queue T)
  push x q = elim (node_at q.nodes q.tail) [
    | none ↦ faults
    | some old ↦ elim old.next [
      | some n ↦ faults
      | none ↦ returns (record {
        nodes =
            set (q.nodes ++ some blank ∷ []) q.tail
              (some (record { value = some x; next = some (length q.nodes) }));
        head = q.head;
        tail = length q.nodes;
      })
    ]
  ]

  -- pop: moves the head out, reads the element, moves the head on, and frees the old node.
  abbrev pub pop_at : Queue T → ℕ → Call (T × Queue T)
  pop_at q h = elim (node_at q.nodes h) [
    | none ↦ faults
    | some old ↦ elim old.value [
      | none ↦ faults
      | some x ↦ returns (x, record { nodes = set q.nodes h none; head = old.next; tail = q.tail })
    ]
  ]

  unfoldable pub pop : Queue T → Call (T × Queue T)
  pop q = elim q.head [ none ↦ faults | some h ↦ pop_at q h ]

  unfoldable pub wait_pop : Queue T → Call (T × Queue T)
  unfolding pop
  wait_pop q = if is_tail q.head q.tail then waits else pop q

  -- `none` where the code returns false
  abbrev given : Call (T × Queue T) → Call (Option T × Queue T)
  given (returns (x, q)) = returns (some x, q)
  given waits = waits
  given faults = faults

  unfoldable pub try_pop : Queue T → Call (Option T × Queue T)
  unfolding pop
  try_pop q = if is_tail q.head q.tail then returns (none, q) else given (pop q)
