-- ===== src/CircleQueue/NoLock/Returns.antt =====
-- The calls of the two threads return.
use cxx.Common.{
  ℕ, ◌+◌, ◌%◌, ◌<◌, ◌≡◌, ◌⊎◌, inl, inr, refl, Bool, true, false, List, arith, ◌==◌, if◌then◌else◌,
}
use cxx.CircleQueue.NoLock.{
  Emplace, Pop, emplace_step, pop_step, loads_tail, tests_full, moves_tail, constructs,
  moves_tail_up, emplaced, loads_head, tests_tail, tests_tail_up, copies, moves_head, gives,
  finds_none,
}
use cxx.CircleQueue.NoLock.Pair.{Pair, Move, producer_step, consumer_step, run, begin}
use cxx.CircleQueue.NoLock.Order.{
  Emplacing, loading, testing, moving, constructing, publishing, ended, Popping, at_start, at_tail,
  at_tail_up, copying, leaving, given, not_given, emplace_runs, pop_runs,
}
use cxx.CircleQueue.NoLock.Schedules.{run-IsValid, begin-IsValid}

module _ {ℓ} {T : Type ℓ} where
  -- The most steps that the call has yet to make.
  abbrev pub emplace_left : Emplace T → ℕ
  emplace_left (loads_tail x) = 5
  emplace_left (tests_full x t) = 4
  emplace_left (moves_tail x t) = 3
  emplace_left (constructs x t) = 2
  emplace_left (moves_tail_up x t) = 1
  emplace_left (emplaced x b) = 0

  abbrev pub pop_left : Pop T → ℕ
  pop_left loads_head = 5
  pop_left (tests_tail h) = 4
  pop_left (tests_tail_up h) = 3
  pop_left (copies h) = 2
  pop_left (moves_head h x) = 1
  pop_left (gives x) = 0
  pop_left finds_none = 0

  lower_if :
      (n : ℕ) (b : Bool) (e e' : Emplace T)
      → emplace_left e < n
      → emplace_left e' < n
      → emplace_left (if b then e else e') < n
  lower_if n true e e' l l' = l
  lower_if n false e e' l l' = l'

  emplace-left :
      (s : Pair T) (xs : List T) (e : Emplace T)
      → Emplacing s.queue xs e
      → (emplace_runs e ≡ false) ⊎ (emplace_left (producer_step s e).emplacing < emplace_left e)
  unfolding producer_step emplace_step
  emplace-left s xs _ (loading x u) = inr (omega arith)
  emplace-left s xs _ (testing x u) = inr (
      lower_if 4 ((s.queue.tail_up + 1) % s.queue.max_size == s.queue.head) (emplaced x false)
        (moves_tail x s.queue.tail_up) (omega arith) (omega arith))
  emplace-left s xs _ (moving x u l) =
      let still : (s.queue.tail == s.queue.tail_up) ≡ true = ground (arith, u) in
      inr (rw (still, emplace_step) (omega arith))
  emplace-left s xs _ (constructing x u l) = inr (omega arith)
  emplace-left s xs _ (publishing x u l at) =
      let still : (s.queue.tail_up == s.queue.tail_up) ≡ true = ground arith in
      inr (rw (still, emplace_step) (omega arith))
  emplace-left s xs _ (ended x b u) = inl refl

  pop_lower_if :
      (n : ℕ) (b : Bool) (p p' : Pop T)
      → pop_left p < n
      → pop_left p' < n
      → pop_left (if b then p else p') < n
  pop_lower_if n true p p' l l' = l
  pop_lower_if n false p p' l l' = l'

  pop-left :
      (s : Pair T) (xs : List T) (p : Pop T)
      → Popping s.queue.head xs p
      → (pop_runs p ≡ false) ⊎ (pop_left (consumer_step s p).popping < pop_left p)
  unfolding consumer_step pop_step
  pop-left s xs _ at_start = inr (omega arith)
  pop-left s xs _ at_tail = inr (
      pop_lower_if 4 (s.queue.head == s.queue.tail) finds_none (tests_tail_up s.queue.head)
        (omega arith) (omega arith))
  pop-left s xs _ at_tail_up = inr (
      pop_lower_if 3 (s.queue.head == s.queue.tail_up) finds_none (copies s.queue.head)
        (omega arith) (omega arith))
  pop-left s xs _ (copying x ys i) = inr (omega arith)
  pop-left s xs _ (leaving x ys i) =
      let still : (s.queue.head == s.queue.head) ≡ true = ground arith in
      inr (rw (still, pop_step) (omega arith))
  pop-left s xs _ (given o) = inl refl
  pop-left s xs _ not_given = inl refl

  -- With one thread that emplaces and one that pops, however their accesses follow one another, no
  -- loop starts again: each call returns after at most five steps of its own, of which every one
  -- brings it nearer to its end.
  pub calls_left :
      (cap : ℕ) (x : T) (xs : List T) (ms : List Move)
      → ((emplace_runs (run ms (begin cap x xs)).emplacing ≡ false)
          ⊎ (emplace_left
                (producer_step
                  (run ms (begin cap x xs))
                  (run ms (begin cap x xs)).emplacing).emplacing
              < emplace_left (run ms (begin cap x xs)).emplacing))
        × ((pop_runs (run ms (begin cap x xs)).popping ≡ false)
            ⊎ (pop_left
                  (consumer_step
                    (run ms (begin cap x xs))
                    (run ms (begin cap x xs)).popping).popping
                < pop_left (run ms (begin cap x xs)).popping))
  calls_left cap x xs ms =
      let s = run ms (begin cap x xs) in
      let v = run-IsValid cap ms (begin cap x xs) (begin-IsValid cap x xs) in
      (
        emplace-left s v.inside s.emplacing v.agree.emplacing,
        pop-left s v.inside s.popping v.agree.popping,
      )
