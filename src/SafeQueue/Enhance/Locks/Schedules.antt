-- ===== src/SafeQueue/Enhance/Locks/Schedules.antt =====
-- Any number of threads on the queue, under any schedule.
use cxx.Common.{
  ℕ, zero, suc, ◌≤◌, ◌≡◌, ◌∙◌, refl, sym, ap, subst, arith, some, List, ◌++◌, append-nil, replicate,
}
use cxx.SafeQueue.Enhance.Fifo.{Chained}
use cxx.SafeQueue.Enhance.Runs.{Request, answers, fifo, answers_lem}
use cxx.SafeQueue.Enhance.Locks.{
  Push, no_push, stores, links, moves_tail, Pop, no_pop, tests_tail, takes, moves_head, frees,
  Shared, Move, push_goes_on, pop_goes_on, shared_step, run, start,
}
use cxx.SafeQueue.Enhance.Locks.Agree.{held, Agrees, push_left, pop_left}
use cxx.SafeQueue.Enhance.Locks.Valid.{
  IsValid, start-IsValid, Goes, push_step-Pushed, pop_step-Popped, run-step, run-IsValid,
  run-append,
}

module _ {ℓ} {T : Type ℓ} where
  no_push_left : (p : Push T) → push_left p ≤ 0 → p ≡ no_push
  no_push_left no_push h = refl
  no_push_left (stores x n) h = absurd (omega (arith, h))
  no_push_left (links x n) h = absurd (omega (arith, h))
  no_push_left (moves_tail x n) h = absurd (omega (arith, h))

  no_pop_left : (c : Pop T) → pop_left c ≤ 0 → c ≡ no_pop
  no_pop_left no_pop h = refl
  no_pop_left tests_tail h = absurd (omega (arith, h))
  no_pop_left takes h = absurd (omega (arith, h))
  no_pop_left (moves_head h x) l = absurd (omega (arith, l))
  no_pop_left (frees h x) l = absurd (omega (arith, l))

  push_left_le : (p : Push T) → push_left p ≤ 3
  push_left_le no_push = omega arith
  push_left_le (stores x n) = omega arith
  push_left_le (links x n) = omega arith
  push_left_le (moves_tail x n) = omega arith

  pop_left_le : (c : Pop T) → pop_left c ≤ 4
  pop_left_le no_pop = omega arith
  pop_left_le tests_tail = omega arith
  pop_left_le takes = omega arith
  pop_left_le (moves_head h x) = omega arith
  pop_left_le (frees h x) = omega arith

  -- The push that is on its way returns.
  finish_push :
      (n : ℕ) (s : Shared T)
      → IsValid s
      → push_left s.pushing ≤ n
      → Goes (λ s'. IsValid s' × (s'.pushing ≡ no_push)) (run (replicate n push_goes_on) s)
  finish_push zero s v h = (s, unfold run in refl, (v, no_push_left s.pushing h))
  finish_push (suc n) s v h =
      let (s', e, w) = push_step-Pushed s v in
      let (t, f, u) = finish_push n s' w.valid (omega (arith, w.left, h)) in
      (t, run-step s s' push_goes_on (replicate n push_goes_on) (unfold shared_step in e) ∙ f, u)

  finish_pop :
      (n : ℕ) (s : Shared T)
      → IsValid s
      → s.pushing ≡ no_push
      → pop_left s.popping ≤ n
      → Goes
          (λ s'. IsValid s' × (s'.pushing ≡ no_push) × (s'.popping ≡ no_pop))
          (run (replicate n pop_goes_on) s)
  finish_pop zero s v p h = (s, unfold run in refl, (v, p, no_pop_left s.popping h))
  finish_pop (suc n) s v p h =
      let (s', e, w) = pop_step-Popped s v in
      let (t, f, u) = finish_pop n s' w.valid (w.other ∙ p) (omega (arith, w.left, h)) in
      (t, run-step s s' pop_goes_on (replicate n pop_goes_on) (unfold shared_step in e) ∙ f, u)

  idle-Chained :
      (s : Shared T) (inside : List T) (p : Push T) (c : Pop T)
      → p ≡ no_push
      → c ≡ no_pop
      → Agrees s.queue p c inside
      → Chained s.queue inside
  idle-Chained s inside p c e f a =
      let b : Agrees s.queue no_push no_pop inside =
        subst (λ t. Agrees s.queue no_push t inside) f
          (subst (λ t. Agrees s.queue t c inside) e a) in
      record { first = b.first; head_at = b.popping.0; chain = b.chain; last = b.pushing }

  -- The steps that let the calls that are on their way return.
  abbrev pub to_the_end : List (Move T)
  to_the_end = replicate 3 push_goes_on ++ replicate 4 pop_goes_on

  -- However any number of threads push and pop, one access after another: no step reaches a freed
  -- node or a null pointer; and when the calls that hold the locks have taken their last steps, three
  -- of a push and four of a pop, what pops have given and then what is in the queue are the elements
  -- of the pushes, in order, and calls one after another then answer what they do on a list of what
  -- is in the queue.
  pub locks_lem :
      (ms : List (Move T)) (rs : List (Request T))
      → (s : Shared T) × (inside : List T) × (run (ms ++ to_the_end) start ≡ some s)
        × (s.popped ++ inside ≡ s.pushed)
        × (answers rs s.queue ≡ fifo rs inside)
  locks_lem ms rs =
      let (s, e, v) = run-IsValid ms start start-IsValid in
      let (t, f, (w, p)) = finish_push 3 s v (push_left_le s.pushing) in
      let (u, g, (x, p', c)) = finish_pop 4 t w p (pop_left_le t.popping) in
      (
        u,
        x.inside,
        run-append ms to_the_end start s start-IsValid e
            ∙ run-append (replicate 3 push_goes_on) (replicate 4 pop_goes_on) s t v f
            ∙ g,
        sym (ap (λ h. h ++ x.inside) (append-nil u.popped))
            ∙ ap (λ h. u.popped ++ held h ++ x.inside) (sym c)
            ∙ x.order,
        answers_lem rs u.queue x.inside (idle-Chained u x.inside u.pushing u.popping p' c x.agrees),
      )
