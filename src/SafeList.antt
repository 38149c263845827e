-- ===== src/SafeList.antt =====
-- SafeList of include/data_struct/SafeList.hpp: a singly linked list behind an empty head node, on a
-- store of nodes. An address is an index into the store; a node that has been freed is `none`. A
-- lock or an unlock of a node's mutex is an access to the node. The calls are taken one after
-- another. Fuel bounds the walks along the `next_` pointers.
pub mod Remove
pub mod Chain
pub mod Pushes
pub mod Walks
pub mod Removals
pub mod Built
mod Tests
use cxx.Common.{
  ℕ, zero, suc, Bool, true, false, Option, none, some, List, [], ◌∷◌, ◌++◌, length, get_elem?, set,
  if◌then◌else◌,
}

-- A null pointer is `none`.
pub record Node {ℓ} (T : Type ℓ) : Type ℓ where
  pub value : Option T
  pub next : Option ℕ

abbrev pub Store {ℓ} : Type ℓ → Type ℓ
Store T = List (Option (Node T))

-- `tail_` is not initialised by the constructor: it is `none` until it is set.
pub record SafeList {ℓ} (T : Type ℓ) : Type ℓ where
  pub nodes : Store T
  pub head : ℕ
  pub tail : Option ℕ

-- How a call ends. `fault`: an access to a freed node, or through a pointer that is null or not
-- initialised.
pub data Run {ℓ} (A : Type ℓ) : Type ℓ where
  ok : A → Run A
  fault : Run A
  out_of_fuel : Run A

infixl 5 ◌>>=◌
abbrev pub ◌>>=◌ {ℓ κ} : {A : Type ℓ} {B : Type κ} → Run A → (A → Run B) → Run B
ok a >>= k = k a
fault >>= k = fault
out_of_fuel >>= k = out_of_fuel

-- `tail_` after `if (… == nullptr) tail_ = a`
abbrev pub tail_if_null : Option ℕ → ℕ → Option ℕ → Option ℕ
tail_if_null none a tail = some a
tail_if_null (some b) a tail = tail

abbrev pub initialised : Option ℕ → Run ℕ
initialised none = fault
initialised (some t) = ok t

module _ {ℓ} {T : Type ℓ} where
  abbrev pub live : Option (Option (Node T)) → Run (Node T)
  live (some (some n)) = ok n
  live _ = fault

  -- `*a`
  abbrev pub load : Store T → ℕ → Run (Node T)
  load nodes a = live (get_elem? nodes a)

  abbrev pub deref : Option T → Run T
  deref none = fault
  deref (some x) = ok x

  -- The constructor
  unfoldable pub new : SafeList T
  new = record { nodes = some (record { value = none; next = none }) ∷ []; head = 0; tail = none }

  -- The destructor of a std::unique_ptr<Node>: the node's own `next_` is destroyed before it.
  unfoldable pub destroy : ℕ → Store T → Option ℕ → Run (Store T)
  destroy fuel nodes none = ok nodes
  destroy zero nodes (some a) = out_of_fuel
  destroy (suc fuel) nodes (some a) = do
    n ← load nodes a
    left ← destroy fuel nodes n.next
    ok (set left a none)

  -- `next_ = …` and `next_.reset(…)` of the node at `c`: what it pointed to is destroyed.
  unfoldable pub reset_next : ℕ → Store T → ℕ → Option ℕ → Run (Store T)
  unfolding destroy
  reset_next fuel nodes c p = do
    n ← load nodes c
    destroy fuel (set nodes c (some (record { value = n.value; next = p }))) n.next

  -- pushFront. The head's `next_` is moved out first, so the assignment destroys nothing.
  unfoldable pub push_front : T → SafeList T → Run (SafeList T)
  push_front x l = do
    h ← load l.nodes l.head
    let a = length l.nodes
    ok (record {
      nodes =
          set l.nodes l.head (some (record { value = h.value; next = some a }))
          ++ some (record { value = some x; next = h.next }) ∷ [];
      head = l.head;
      tail = tail_if_null h.next a l.tail;
    })

  -- pushBack
  unfoldable pub push_back : ℕ → T → SafeList T → Run (SafeList T)
  unfolding reset_next
  push_back fuel x l = do
    t ← initialised l.tail
    let a = length l.nodes
    nodes ←
        reset_next fuel (l.nodes ++ some (record { value = some x; next = none }) ∷ []) t (some a)
    ok (record { nodes = nodes; head = l.head; tail = some a })

  -- One round of a walk, with the rest of the walk as `rest`: the end, or the next node.
  abbrev pub visit_next : Store T → (ℕ → Run (List T)) → Option ℕ → Run (List T)
  visit_next nodes rest none = ok []
  visit_next nodes rest (some next) = do
    n ← load nodes next
    x ← deref n.value
    xs ← rest next
    ok (x ∷ xs)

  -- The loop of forEach: the elements that the function is called on, in order.
  unfoldable pub visit : ℕ → Store T → ℕ → Run (List T)
  visit zero nodes current = out_of_fuel
  visit (suc fuel) nodes current = do
    c ← load nodes current
    visit_next nodes (visit fuel nodes) c.next

  unfoldable pub for_each : ℕ → SafeList T → Run (List T)
  unfolding visit
  for_each fuel l = visit fuel l.nodes l.head

  -- The loop of findFirstIf; `none` is the empty std::shared_ptr.
  abbrev pub find_next : (T → Bool) → Store T → (ℕ → Run (Option T)) → Option ℕ → Run (Option T)
  find_next p nodes rest none = ok none
  find_next p nodes rest (some next) = do
    n ← load nodes next
    x ← deref n.value
    if p x then ok (some x) else rest next

  unfoldable pub find_from : ℕ → (T → Bool) → Store T → ℕ → Run (Option T)
  find_from zero p nodes current = out_of_fuel
  find_from (suc fuel) p nodes current = do
    c ← load nodes current
    find_next p nodes (find_from fuel p nodes) c.next

  unfoldable pub find_first_if : ℕ → (T → Bool) → SafeList T → Run (Option T)
  unfolding find_from
  find_first_if fuel p l = find_from fuel p l.nodes l.head
