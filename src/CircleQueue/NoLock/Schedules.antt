-- ===== src/CircleQueue/NoLock/Schedules.antt =====
-- The two threads under any schedule.
use cxx.Common.{
  ℕ, ◌+◌, ◌≤◌, ◌≡◌, ◌∙◌, refl, sym, ap, subst, true, false, some, List, [], ◌∷◌, ◌++◌, map,
  append_assoc, order-append, arith, length, ◌==◌, Bool-cases, inl, inr,
}
use cxx.CircleQueue.Fifo.{new-Holds}
use cxx.CircleQueue.NoLock.{
  Queue, Emplace, Pop, new, emplace_step, pop_step, loads_tail, tests_full, moves_tail, constructs,
  moves_tail_up, emplaced, loads_head, tests_tail, tests_tail_up, copies, moves_head, gives,
  finds_none,
}
use cxx.CircleQueue.NoLock.Pair.{
  Pair, Move, produce, consume, accepts, receives, next_emplace, after_emplace, after_pop,
  producer_step, consumer_step, run, begin,
}
use cxx.CircleQueue.NoLock.Order.{
  Agree, Emplacing, loading, testing, moving, constructing, publishing, ended, at_start,
  emplace_runs, pop_runs, emplace_step-Agree, pop_step-Agree,
}

module _ {ℓ} {T : Type ℓ} where
  emplace_step-max_size : (q : Queue T) (e : Emplace T) → (emplace_step q e).0.max_size ≡ q.max_size
  unfolding emplace_step
  emplace_step-max_size q (loads_tail x) = refl
  emplace_step-max_size q (tests_full x t) = refl
  emplace_step-max_size q (moves_tail x t) = elim (Bool-cases (q.tail == t)) [
    | inl y ↦ rw (y, emplace_step) refl
    | inr n ↦ rw (n, emplace_step) refl
  ]
  emplace_step-max_size q (constructs x t) = refl
  emplace_step-max_size q (moves_tail_up x t) = elim (Bool-cases (q.tail_up == t)) [
    | inl y ↦ rw (y, emplace_step) refl
    | inr n ↦ rw (n, emplace_step) refl
  ]
  emplace_step-max_size q (emplaced x b) = refl

  pop_step-max_size : (q : Queue T) (p : Pop T) → (pop_step q p).0.max_size ≡ q.max_size
  unfolding pop_step
  pop_step-max_size q loads_head = refl
  pop_step-max_size q (tests_tail h) = refl
  pop_step-max_size q (tests_tail_up h) = refl
  pop_step-max_size q (copies h) = refl
  pop_step-max_size q (moves_head h x) = elim (Bool-cases (q.head == h)) [
    | inl y ↦ rw (y, pop_step) refl
    | inr n ↦ rw (n, pop_step) refl
  ]
  pop_step-max_size q (gives x) = refl
  pop_step-max_size q finds_none = refl

  -- What has been received and what is in the ring is what has been accepted.
  pub record IsValid (cap : ℕ) (s : Pair T) : Type ℓ where
    pub inside : List T
    pub size : s.queue.max_size ≡ cap + 1
    pub agree : Agree s.queue inside s.emplacing s.popping
    pub order : s.received ++ map some inside ≡ map some s.accepted

  after_emplace-IsValid :
      (cap : ℕ) (s : Pair T)
      → IsValid cap s
      → emplace_runs s.emplacing ≡ true
      → IsValid cap (after_emplace s (emplace_step s.queue s.emplacing))
  after_emplace-IsValid cap s v r = record {
    inside = v.inside ++ accepts (emplace_step s.queue s.emplacing).1;
    size = emplace_step-max_size s.queue s.emplacing ∙ v.size;
    agree =
        emplace_step-Agree s.queue v.inside s.emplacing s.popping v.agree.holds v.agree.emplacing
          v.agree.popping r;
    order =
        order-append some s.received v.inside s.accepted
          (accepts (emplace_step s.queue s.emplacing).1) v.order;
  }

  after_pop-IsValid :
      (cap : ℕ) (s : Pair T)
      → IsValid cap s
      → pop_runs s.popping ≡ true
      → IsValid cap (after_pop s (pop_step s.queue s.popping))
  after_pop-IsValid cap s v r =
      let (ys, i, a) =
        pop_step-Agree s.queue v.inside s.emplacing s.popping v.agree.holds v.agree.emplacing
          v.agree.popping r in
      record {
        inside = ys;
        size = pop_step-max_size s.queue s.popping ∙ v.size;
        agree = a;
        order =
            append_assoc s.received (receives (pop_step s.queue s.popping).1) (map some ys)
            ∙ ap (λ o. s.received ++ o) (sym i)
            ∙ v.order;
      }

  settled :
      (q : Queue T) (xs : List T) (e : Emplace T)
      → Emplacing q xs e
      → emplace_runs e ≡ false
      → q.tail ≡ q.tail_up
  settled q xs _ (loading x u) r = u
  settled q xs _ (testing x u) r = u
  settled q xs _ (moving x u l) r = u
  settled q xs _ (constructing x u l) r = cc
  settled q xs _ (publishing x u l at) r = cc
  settled q xs _ (ended x b u) r = u

  next_emplace-IsValid :
      (cap : ℕ) (s : Pair T) (xs : List T)
      → IsValid cap s
      → s.queue.tail ≡ s.queue.tail_up
      → IsValid cap (next_emplace s xs)
  next_emplace-IsValid cap s [] v u = v
  next_emplace-IsValid cap s (x ∷ xs) v u = record {
    inside = v.inside;
    size = v.size;
    agree = record { holds = v.agree.holds; emplacing = loading x u; popping = v.agree.popping };
    order = v.order;
  }

  producer_step-IsValid :
      (cap : ℕ) (s : Pair T) (e : Emplace T)
      → s.emplacing ≡ e
      → IsValid cap s
      → IsValid cap (producer_step s e)
  unfolding producer_step
  producer_step-IsValid cap s e i v = by_phase e i
    where
      goes_on :
          (e' : Emplace T)
          → s.emplacing ≡ e'
          → emplace_runs e' ≡ true
          → IsValid cap (after_emplace s (emplace_step s.queue e'))
      goes_on e' j r =
          subst (λ d. IsValid cap (after_emplace s (emplace_step s.queue d))) j
            (after_emplace-IsValid cap s v (ap emplace_runs j ∙ r))

      by_phase : (e' : Emplace T) → s.emplacing ≡ e' → IsValid cap (producer_step s e')
      by_phase (loads_tail x) j = goes_on (loads_tail x) j refl
      by_phase (tests_full x t) j = goes_on (tests_full x t) j refl
      by_phase (moves_tail x t) j = goes_on (moves_tail x t) j refl
      by_phase (constructs x t) j = goes_on (constructs x t) j refl
      by_phase (moves_tail_up x t) j = goes_on (moves_tail_up x t) j refl
      by_phase (emplaced x b) j =
          next_emplace-IsValid cap s s.waiting v
            (settled s.queue v.inside s.emplacing v.agree.emplacing (ap emplace_runs j))

  consumer_step-IsValid :
      (cap : ℕ) (s : Pair T) (p : Pop T)
      → s.popping ≡ p
      → IsValid cap s
      → IsValid cap (consumer_step s p)
  unfolding consumer_step
  consumer_step-IsValid cap s p i v = by_phase p i
    where
      goes_on :
          (p' : Pop T)
          → s.popping ≡ p'
          → pop_runs p' ≡ true
          → IsValid cap (after_pop s (pop_step s.queue p'))
      goes_on p' j r =
          subst (λ d. IsValid cap (after_pop s (pop_step s.queue d))) j
            (after_pop-IsValid cap s v (ap pop_runs j ∙ r))

      again : IsValid cap (record s { popping = loads_head })
      again = record {
        inside = v.inside;
        size = v.size;
        agree = record { holds = v.agree.holds; emplacing = v.agree.emplacing; popping = at_start };
        order = v.order;
      }

      by_phase : (p' : Pop T) → s.popping ≡ p' → IsValid cap (consumer_step s p')
      by_phase loads_head j = goes_on loads_head j refl
      by_phase (tests_tail h) j = goes_on (tests_tail h) j refl
      by_phase (tests_tail_up h) j = goes_on (tests_tail_up h) j refl
      by_phase (copies h) j = goes_on (copies h) j refl
      by_phase (moves_head h x) j = goes_on (moves_head h x) j refl
      by_phase (gives x) j = again
      by_phase finds_none j = again

  pub run-IsValid : (cap : ℕ) (ms : List Move) (s : Pair T) → IsValid cap s → IsValid cap (run ms s)
  unfolding run
  run-IsValid cap [] s v = v
  run-IsValid cap (produce ∷ ms) s v =
      run-IsValid cap ms (producer_step s s.emplacing)
        (producer_step-IsValid cap s s.emplacing refl v)
  run-IsValid cap (consume ∷ ms) s v =
      run-IsValid cap ms (consumer_step s s.popping) (consumer_step-IsValid cap s s.popping refl v)

  pub begin-IsValid : (cap : ℕ) (x : T) (xs : List T) → IsValid cap (begin cap x xs)
  unfolding new
  begin-IsValid cap x xs = record {
    inside = [];
    size = refl;
    agree = record {
      holds = unfold cxx.CircleQueue.new in new-Holds cap;
      emplacing = loading x refl;
      popping = at_start;
    };
    order = refl;
  }

  -- With one thread that emplaces and one that pops, however their accesses follow one another: what
  -- the pops have given are the accepted elements, in order, but for at most `cap` that are still in
  -- the ring; no pop gives a cell in which nothing has been constructed.
  pub run_accepted :
      (cap : ℕ) (x : T) (xs : List T) (ms : List Move)
      → (inside : List T) × (length inside ≤ cap)
        × ((run ms (begin cap x xs)).received ++ map some inside
            ≡ map some (run ms (begin cap x xs)).accepted)
  run_accepted cap x xs ms =
      let v = run-IsValid cap ms (begin cap x xs) (begin-IsValid cap x xs) in
      (v.inside, omega (arith, v.size, v.agree.holds.room), v.order)
