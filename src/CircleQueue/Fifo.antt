-- ===== src/CircleQueue/Fifo.antt =====
-- The ring as a bounded first-in first-out queue.
use native.Mathlib.Nat.{mod-eq_of_lt, mod-eq-sub-mod}
use cxx.Common.{
  get_elem?-front, get_elem?-back, ℕ, ◌⊎◌, inl, inr, suc, ◌+◌, ◌-◌, ◌%◌, ◌≤◌, ◌<◌, ◌≡◌, ◌∙◌, refl,
  sym, ap, true, false, Option, none, some, List, [], ◌∷◌, ◌++◌, arith, length, length-append,
  length-set, get_elem?-set_self, get_elem?-set_ne, length-replicate, set, get_elem?, ltb, ◌==◌,
  if◌then◌else◌, dec_lt,
}
use cxx.CircleQueue.{Ring, new, emplace, pop, cell_at}

-- The index `i` steps behind `h` in a ring of `m` cells.
abbrev pub around : ℕ → ℕ → ℕ → ℕ
around m h i = if ltb (h + i) m then h + i else h + i - m

around-mod : (m h i : ℕ) → h < m → i ≤ m → (h + i) % m ≡ around m h i
around-mod m h i p q = elim (dec_lt (h + i) m) [
  | yes l ↦ ground (arith, mod-eq_of_lt l)
  | no l ↦ ground (
    arith,
    mod-eq-sub-mod {n = h + i} {m = m} (omega arith),
    mod-eq_of_lt {n = h + i - m} {m = m} (omega arith),
  )
]

-- One step on from a place.
step-mod : (m h i : ℕ) → h < m → i < m → (around m h i + 1) % m ≡ around m h (i + 1)
step-mod m h i p q = ground (arith, around-mod m (around m h i) 1 (ground arith) (omega arith))

module _ {ℓ} {T : Type ℓ} where
  -- The ring holds the elements `xs`, oldest first.
  pub record Holds (q : Ring T) (xs : List T) : Type ℓ where
    pub storage : length q.cells ≡ q.max_size
    pub head_in : q.head < q.max_size
    pub room : length xs < q.max_size
    pub tail_at : q.tail ≡ around q.max_size q.head (length xs)
    pub cell :
        (i : ℕ)
        → i < length xs
        → get_elem? q.cells (around q.max_size q.head i) ≡ some (get_elem? xs i)

  -- A new queue is empty.
  pub new-Holds : (cap : ℕ) → Holds (new cap) []
  unfolding new
  new-Holds cap = record {
    storage = length-replicate (cap + 1) none;
    head_in = omega arith;
    room = omega arith;
    tail_at = ground arith;
    cell = λ i h. absurd (omega arith);
  }

  -- A write into the free cell at the tail
  unfoldable pub written : Ring T → T → Ring T
  written q x = record q { cells = set q.cells q.tail (some x) }

  pub tail_in : (q : Ring T) (xs : List T) → Holds q xs → q.tail < length q.cells
  tail_in q xs h = ground (arith, h.storage, h.head_in, h.tail_at, h.room)

  pub written-Holds : (q : Ring T) (xs : List T) (x : T) → Holds q xs → Holds (written q x) xs
  unfolding written
  written-Holds q xs x h = record {
    storage = length-set q.cells q.tail (some x) ∙ h.storage;
    head_in = h.head_in;
    room = h.room;
    tail_at = h.tail_at;
    cell = λ i l.
        get_elem?-set_ne q.cells q.tail (around q.max_size q.head i) (some x)
          (ground (arith, h.head_in, h.tail_at, h.room))
        ∙ h.cell i l;
  }

  -- The tail moves on.
  unfoldable pub published : Ring T → Ring T
  published q = record q { tail = (q.tail + 1) % q.max_size }

  -- One element more, when it stands in the cell at the tail and the ring is not full.
  pub published-Holds :
      (q : Ring T) (xs : List T) (x : T)
      → Holds q xs
      → length xs + 1 < q.max_size
      → get_elem? q.cells q.tail ≡ some (some x)
      → Holds (published q) (xs ++ x ∷ [])
  unfolding published
  published-Holds q xs x h k at = record {
    storage = h.storage;
    head_in = h.head_in;
    room = omega (arith, length-append xs (x ∷ []));
    tail_at =
        ap (λ t. (t + 1) % q.max_size) h.tail_at
        ∙ step-mod q.max_size q.head (length xs) h.head_in (omega arith)
        ∙ ap (around q.max_size q.head) (omega (arith, length-append xs (x ∷ [])));
    cell = λ i l. cells i l;
  }
    where
      cells :
          (i : ℕ)
          → i < length (xs ++ x ∷ [])
          → get_elem? q.cells (around q.max_size q.head i) ≡ some (get_elem? (xs ++ x ∷ []) i)
      cells i l = elim (dec_lt i (length xs)) [
        | yes old ↦ h.cell i old ∙ ap some (sym (get_elem?-front xs (x ∷ []) i old))
        | no new ↦
            let last : i ≡ length xs = omega (arith, length-append xs (x ∷ [])) in
            rw (last, ← h.tail_at) (at ∙ ap some (sym (get_elem?-back xs x)))
      ]

  -- Where the test for a full ring fails there is room for one more.
  pub not_full :
      (q : Ring T) (xs : List T)
      → Holds q xs
      → ((q.tail + 1) % q.max_size == q.head) ≡ false
      → length xs + 1 < q.max_size
  not_full q xs h n = ground (arith, next, n, h.head_in, h.room)
    where
      next : (q.tail + 1) % q.max_size ≡ around q.max_size q.head (length xs + 1)
      next =
          ap (λ t. (t + 1) % q.max_size) h.tail_at
          ∙ step-mod q.max_size q.head (length xs) h.head_in h.room

  stored : Ring T → T → Ring T
  stored q x = record q { cells = set q.cells q.tail (some x); tail = (q.tail + 1) % q.max_size }

  stored-Holds :
      (q : Ring T) (xs : List T) (x : T)
      → Holds q xs
      → length xs + 1 < q.max_size
      → Holds (stored q x) (xs ++ x ∷ [])
  unfolding stored written published
  stored-Holds q xs x h k =
      published-Holds (written q x) xs x (written-Holds q xs x h) k
        (get_elem?-set_self q.cells q.tail (some x) (tail_in q xs h))

  -- Below its capacity the ring takes an element at the end of the queue that it holds; at its
  -- capacity it refuses it and stays as it is.
  pub emplace-Holds :
      (q : Ring T) (xs : List T) (x : T)
      → Holds q xs
      → ((length xs + 1 < q.max_size)
          × ((emplace q x).0 ≡ true)
          × Holds (emplace q x).1 (xs ++ x ∷ []))
        ⊎ ((length xs + 1 ≡ q.max_size) × (emplace q x ≡ (false, q)))
  unfolding emplace
  emplace-Holds q xs x h = elim (dec_lt (length xs + 1) q.max_size) [
    | yes room ↦
        let go : ((q.tail + 1) % q.max_size == q.head) ≡ false = ground (arith, next, h.head_in) in
        inl (room, rw go, rw go (unfold stored in stored-Holds q xs x h room))
    | no full ↦
        let stop : ((q.tail + 1) % q.max_size == q.head) ≡ true =
          ground (arith, next, h.head_in, h.room) in
        inr (omega (arith, h.room), rw stop)
  ]
    where
      next : (q.tail + 1) % q.max_size ≡ around q.max_size q.head (length xs + 1)
      next =
          ap (λ t. (t + 1) % q.max_size) h.tail_at
          ∙ step-mod q.max_size q.head (length xs) h.head_in h.room

  -- The head moves on.
  unfoldable pub taken : Ring T → Ring T
  taken q = record q { head = (q.head + 1) % q.max_size }

  -- The cell at the head has the oldest element, and behind it are the others in order.
  pub taken-Holds :
      (q : Ring T) (x : T) (xs : List T)
      → Holds q (x ∷ xs)
      → (cell_at q.cells q.head ≡ some x) × Holds (taken q) xs
  unfolding taken
  taken-Holds q x xs h = (
    ap flat (ap (get_elem? q.cells) at_head ∙ h.cell 0 (omega arith)),
    record {
      storage = h.storage;
      head_in = ground (arith, next, h.head_in);
      room = omega (arith, h.room);
      tail_at = ground (arith, next, h.head_in, h.tail_at, h.room);
      cell = λ i l. ap (get_elem? q.cells) (shift i l) ∙ h.cell (suc i) (omega arith);
    },
  )
    where
      flat : Option (Option T) → Option T
      flat o = elim o [ none ↦ none | some cell ↦ cell ]

      at_head : q.head ≡ around q.max_size q.head 0
      at_head = ground (arith, h.head_in)

      next : (q.head + 1) % q.max_size ≡ around q.max_size q.head 1
      next = around-mod q.max_size q.head 1 h.head_in (omega (arith, h.head_in))

      shift :
          (i : ℕ)
          → i < length xs
          → around q.max_size ((q.head + 1) % q.max_size) i ≡ around q.max_size q.head (suc i)
      shift i l = ground (arith, next, h.head_in, h.room)

  -- A pop from a ring that holds a queue with an element gives its oldest element and keeps the
  -- others in order.
  pub pop-Holds :
      (q : Ring T) (x : T) (xs : List T)
      → Holds q (x ∷ xs)
      → ((pop q).0 ≡ true) × ((pop q).1 ≡ some x) × Holds (pop q).2 xs
  unfolding pop taken
  pop-Holds q x xs h =
      let full : (q.head == q.tail) ≡ false = ground (arith, h.tail_at, h.head_in, h.room) in
      let (first, rest) = taken-Holds q x xs h in rw full (refl, first, rest)

  -- A pop from an empty ring returns false, moves nothing out and changes nothing.
  pub pop_empty : (q : Ring T) → Holds q [] → pop q ≡ (false, none, q)
  unfolding pop
  pop_empty q h = ground (arith, h.tail_at, h.head_in)
