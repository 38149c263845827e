-- ===== src/SafeList/Remove.antt =====
-- removeIf, removeFirstIf and the destructor of SafeList.
use cxx.Common.{ℕ, zero, suc, Bool, true, false, Option, none, some, if◌then◌else◌}
use cxx.SafeList.{
  Store, SafeList, Run, ok, out_of_fuel, load, deref, reset_next, tail_if_null, ◌>>=◌,
}

module _ {ℓ} {T : Type ℓ} where
  -- `current->next_.reset(std::move(next->next_.get()))`: `get` leaves the pointer with `next`, so
  -- the reset destroys `next` and what is behind it. The mutex of `next` is unlocked afterwards.
  abbrev pub cut_out : ℕ → Store T → ℕ → ℕ → Run (Store T × Option ℕ)
  cut_out fuel nodes current next = do
    n ← load nodes next
    nodes' ← reset_next fuel nodes current n.next
    u ← load nodes' next
    c ← load nodes' current
    ok (nodes', c.next)

  -- What the loop of removeIf does at a node; `rest` is the loop, from a store, a `tail_` and a node.
  abbrev pub remove_next :
      ℕ
      → (T → Bool)
      → (Store T → Option ℕ → ℕ → Run (Store T × Option ℕ))
      → Store T
      → Option ℕ
      → ℕ
      → Option ℕ
      → Run (Store T × Option ℕ)
  remove_next fuel p rest nodes tail current none = ok (nodes, tail)
  remove_next fuel p rest nodes tail current (some next) = do
    n ← load nodes next
    x ← deref n.value
    if p x
        then (do
          r ← cut_out fuel nodes current next
          rest r.0 (tail_if_null r.1 current tail) current)
        else rest nodes tail next

  -- The loop of removeIf
  unfoldable pub remove_from :
      ℕ → ℕ → (T → Bool) → Store T → Option ℕ → ℕ → Run (Store T × Option ℕ)
  unfolding reset_next
  remove_from zero k p nodes tail current = out_of_fuel
  remove_from (suc fuel) k p nodes tail current = do
    c ← load nodes current
    remove_next k p (remove_from fuel k p) nodes tail current c.next

  -- removeIf; `k` is the fuel of the destructors.
  unfoldable pub remove_if : ℕ → ℕ → (T → Bool) → SafeList T → Run (SafeList T)
  unfolding remove_from
  remove_if fuel k p l = do
    r ← remove_from fuel k p l.nodes l.tail l.head
    ok (record { nodes = r.0; head = l.head; tail = r.1 })

  -- What the loop of removeFirstIf does at a node: the result, and the list.
  abbrev pub remove_first_next :
      ℕ
      → (T → Bool)
      → (ℕ → Run (Bool × SafeList T))
      → SafeList T
      → ℕ
      → Option ℕ
      → Run (Bool × SafeList T)
  remove_first_next fuel p rest l current none = ok (false, l)
  remove_first_next fuel p rest l current (some next) = do
    n ← load l.nodes next
    x ← deref n.value
    if p x
        then (do
          nodes ← reset_next fuel l.nodes current n.next
          c ← load nodes current
          u ← load nodes next
          ok (
            true,
            record { nodes = nodes; head = l.head; tail = tail_if_null c.next current l.tail },
          ))
        else rest next

  unfoldable pub remove_first_from : ℕ → ℕ → (T → Bool) → SafeList T → ℕ → Run (Bool × SafeList T)
  unfolding reset_next
  remove_first_from zero k p l current = out_of_fuel
  remove_first_from (suc fuel) k p l current = do
    c ← load l.nodes current
    remove_first_next k p (remove_first_from fuel k p l) l current c.next

  -- removeFirstIf
  unfoldable pub remove_first_if : ℕ → ℕ → (T → Bool) → SafeList T → Run (Bool × SafeList T)
  unfolding remove_first_from
  remove_first_if fuel k p l = remove_first_from fuel k p l l.head

  -- The destructor; the head node is never freed.
  unfoldable pub delete : ℕ → ℕ → SafeList T → Run (SafeList T)
  unfolding remove_if
  delete fuel k l = remove_if fuel k (λ _. true) l
