-- ===== src/CircleQueue/NoLock/Order.antt =====
-- What the two threads keep.
use cxx.Common.{
  ℕ, ◌+◌, ◌%◌, ◌<◌, ◌≡◌, refl, sym, ap, subst, Bool, true, false, Option, some, List, [], ◌∷◌, ◌++◌,
  map, append-nil, arith, length, get_elem?, set, get_elem?-set_self, ◌==◌, Bool-cases, inl, inr,
}
use cxx.CircleQueue.{Ring, cell_at}
use cxx.CircleQueue.Fifo.{
  Holds, written, written-Holds, published, published-Holds, taken, taken-Holds, tail_in, not_full,
}
use cxx.CircleQueue.NoLock.{
  Queue, Emplace, Pop, emplace_step, pop_step, loads_tail, tests_full, moves_tail, constructs,
  moves_tail_up, emplaced, loads_head, tests_tail, tests_tail_up, copies, moves_head, gives,
  finds_none,
}
use cxx.CircleQueue.NoLock.Pair.{accepts, receives}

module _ {ℓ} {T : Type ℓ} where
  -- What a pop may take: the ring up to `tail_up_`.
  abbrev pub ring : Queue T → Ring T
  ring q = record { max_size = q.max_size; cells = q.cells; head = q.head; tail = q.tail_up }

  -- What a phase of emplace means for a ring with these elements in it. With one thread that
  -- emplaces, what it has read of `tail_` is `tail_up_`.
  pub data Emplacing (q : Queue T) (xs : List T) : Emplace T → Type ℓ where
    loading : (x : T) → q.tail ≡ q.tail_up → Emplacing q xs (loads_tail x)
    testing : (x : T) → q.tail ≡ q.tail_up → Emplacing q xs (tests_full x q.tail_up)
    moving :
        (x : T)
        → q.tail ≡ q.tail_up
        → length xs + 1 < q.max_size
        → Emplacing q xs (moves_tail x q.tail_up)
    constructing :
        (x : T)
        → q.tail ≡ (q.tail_up + 1) % q.max_size
        → length xs + 1 < q.max_size
        → Emplacing q xs (constructs x q.tail_up)
    publishing :
        (x : T)
        → q.tail ≡ (q.tail_up + 1) % q.max_size
        → length xs + 1 < q.max_size
        → get_elem? q.cells q.tail_up ≡ some (some x)
        → Emplacing q xs (moves_tail_up x q.tail_up)
    ended : (x : T) (b : Bool) → q.tail ≡ q.tail_up → Emplacing q xs (emplaced x b)

  -- What a phase of pop means
  pub data Popping (head : ℕ) (xs : List T) : Pop T → Type ℓ where
    at_start : Popping head xs loads_head
    at_tail : Popping head xs (tests_tail head)
    at_tail_up : Popping head xs (tests_tail_up head)
    copying : (x : T) (ys : List T) → xs ≡ x ∷ ys → Popping head xs (copies head)
    leaving : (x : T) (ys : List T) → xs ≡ x ∷ ys → Popping head xs (moves_head head (some x))
    given : (o : Option T) → Popping head xs (gives o)
    not_given : Popping head xs finds_none

  pub record Agree (q : Queue T) (xs : List T) (e : Emplace T) (p : Pop T) : Type ℓ where
    pub holds : Holds (ring q) xs
    pub emplacing : Emplacing q xs e
    pub popping : Popping q.head xs p

  same :
      (q : Queue T) (xs : List T) (e : Emplace T) (p : Pop T)
      → Agree q xs e p
      → Agree q (xs ++ []) e p
  same q xs e p a = subst (λ ys. Agree q ys e p) (sym (append-nil xs)) a

  Popping-grow :
      (h : ℕ) (xs : List T) (x : T) (p : Pop T) → Popping h xs p → Popping h (xs ++ x ∷ []) p
  Popping-grow h xs x _ at_start = at_start
  Popping-grow h xs x _ at_tail = at_tail
  Popping-grow h xs x _ at_tail_up = at_tail_up
  Popping-grow h xs x _ (copying y ys e) = copying y (ys ++ x ∷ []) (ap (λ zs. zs ++ x ∷ []) e)
  Popping-grow h xs x _ (leaving y ys e) = leaving y (ys ++ x ∷ []) (ap (λ zs. zs ++ x ∷ []) e)
  Popping-grow h xs x _ (given o) = given o
  Popping-grow h xs x _ not_given = not_given

  Emplacing-shrink :
      (q : Queue T) (x : T) (xs : List T) (h : ℕ) (e : Emplace T)
      → Emplacing q (x ∷ xs) e
      → Emplacing (record q { head = h }) xs e
  Emplacing-shrink q x xs h _ (loading y u) = loading y u
  Emplacing-shrink q x xs h _ (testing y u) = testing y u
  Emplacing-shrink q x xs h _ (moving y u l) = moving y u (omega (arith, l))
  Emplacing-shrink q x xs h _ (constructing y u l) = constructing y u (omega (arith, l))
  Emplacing-shrink q x xs h _ (publishing y u l at) = publishing y u (omega (arith, l)) at
  Emplacing-shrink q x xs h _ (ended y b u) = ended y b u

  -- The call has not returned.
  abbrev pub emplace_runs : Emplace T → Bool
  emplace_runs (emplaced x b) = false
  emplace_runs _ = true

  abbrev pub pop_runs : Pop T → Bool
  pop_runs (gives x) = false
  pop_runs finds_none = false
  pop_runs _ = true

  pub emplace_step-Agree :
      (q : Queue T) (xs : List T) (e : Emplace T) (p : Pop T)
      → Holds (ring q) xs
      → Emplacing q xs e
      → Popping q.head xs p
      → emplace_runs e ≡ true
      → Agree (emplace_step q e).0 (xs ++ accepts (emplace_step q e).1) (emplace_step q e).1 p
  unfolding emplace_step
  emplace_step-Agree q xs _ p h (loading x u) c r = same q xs (tests_full x q.tail) p (record {
    holds = h;
    emplacing = subst (λ t. Emplacing q xs (tests_full x t)) (sym u) (testing x u);
    popping = c;
  })
  emplace_step-Agree q xs _ p h (testing x u) c r =
      elim (Bool-cases ((q.tail_up + 1) % q.max_size == q.head)) [
        | inl y ↦
            rw (y, emplace_step)
              (same q xs (emplaced x false) p
                (record { holds = h; emplacing = ended x false u; popping = c }))
        | inr n ↦
            rw (n, emplace_step)
              (same q xs (moves_tail x q.tail_up) p (record {
                holds = h;
                emplacing = moving x u (not_full (ring q) xs h n);
                popping = c;
              }))
      ]
  emplace_step-Agree q xs _ p h (moving x u l) c r =
      let still : (q.tail == q.tail_up) ≡ true = ground (arith, u) in
      rw (still, emplace_step)
        (same (record q { tail = (q.tail_up + 1) % q.max_size }) xs (constructs x q.tail_up) p
          (record { holds = h; emplacing = constructing x refl l; popping = c }))
  emplace_step-Agree q xs _ p h (constructing x u l) c r =
      same (record q { cells = set q.cells q.tail_up (some x) }) xs (moves_tail_up x q.tail_up) p
        (record {
          holds = unfold written in written-Holds (ring q) xs x h;
          emplacing =
              publishing x u l
                (get_elem?-set_self q.cells q.tail_up (some x) (tail_in (ring q) xs h));
          popping = c;
        })
  emplace_step-Agree q xs _ p h (publishing x u l at) c r =
      let still : (q.tail_up == q.tail_up) ≡ true = ground arith in
      rw (still, emplace_step)
        (record {
          holds = unfold published in published-Holds (ring q) xs x h l at;
          emplacing = ended x true u;
          popping = Popping-grow q.head xs x p c;
        })
  emplace_step-Agree q xs _ p h (ended x b u) c r = cc

  pub pop_step-Agree :
      (q : Queue T) (xs : List T) (e : Emplace T) (p : Pop T)
      → Holds (ring q) xs
      → Emplacing q xs e
      → Popping q.head xs p
      → pop_runs p ≡ true
      → (ys : List T) × (map some xs ≡ receives (pop_step q p).1 ++ map some ys)
        × Agree (pop_step q p).0 ys e (pop_step q p).1
  unfolding pop_step
  pop_step-Agree q xs e _ h c at_start r =
      (xs, refl, record { holds = h; emplacing = c; popping = at_tail })
  pop_step-Agree q xs e _ h c at_tail r = elim (Bool-cases (q.head == q.tail)) [
    | inl y ↦ (
      xs,
      rw (y, pop_step) refl,
      rw (y, pop_step) (record { holds = h; emplacing = c; popping = not_given }),
    )
    | inr n ↦ (
      xs,
      rw (n, pop_step) refl,
      rw (n, pop_step) (record { holds = h; emplacing = c; popping = at_tail_up }),
    )
  ]
  pop_step-Agree q [] e _ h c at_tail_up r =
      let y : (q.head == q.tail_up) ≡ true = ground (arith, h.tail_at, h.head_in) in
      (
        [],
        rw (y, pop_step) refl,
        rw (y, pop_step) (record { holds = h; emplacing = c; popping = not_given }),
      )
  pop_step-Agree q (x ∷ xs) e _ h c at_tail_up r =
      let n : (q.head == q.tail_up) ≡ false = ground (arith, h.tail_at, h.head_in, h.room) in
      (
        x ∷ xs,
        rw (n, pop_step) refl,
        rw (n, pop_step) (record { holds = h; emplacing = c; popping = copying x xs refl }),
      )
  pop_step-Agree q xs e _ h c (copying x ys i) r =
      let first : cell_at q.cells q.head ≡ some x =
        (taken-Holds (ring q) x ys (subst (Holds (ring q)) i h)).0 in
      (
        xs,
        refl,
        record {
          holds = h;
          emplacing = c;
          popping =
              subst (λ o. Popping q.head xs (moves_head q.head o)) (sym first) (leaving x ys i);
        },
      )
  pop_step-Agree q xs e _ h c (leaving x ys i) r =
      let y : (q.head == q.head) ≡ true = ground arith in
      (
        ys,
        rw (y, pop_step) (ap (map some) i),
        rw (y, pop_step)
            (record {
              holds = unfold taken in (taken-Holds (ring q) x ys (subst (Holds (ring q)) i h)).1;
              emplacing = Emplacing-shrink q x ys _ e (subst (λ zs. Emplacing q zs e) i c);
              popping = given (some x);
            }),
      )
  pop_step-Agree q xs e _ h c (given o) r = cc
  pop_step-Agree q xs e _ h c not_given r = cc
