-- ===== src/AsioThreadPool/Threads/Ends.antt =====
-- When the threads of the pool end.
use cxx.Common.{
  ℕ, zero, suc, ◌+◌, ◌≡◌, refl, ap, ◌∙◌, Bool, true, false, ◌&&◌, List, [], ◌∷◌, arith, ◌==◌,
  if◌then◌else◌,
}
use cxx.AsioThreadPool.Threads.{
  IoContext, Counts, Slot, Event, starts, finishes, create, start_work, finish_work, change_at, run,
  reset, reset_all, joins,
}

module _ {C : Type 0} (io : IoContext C) where
  -- The work of a context is that of other code and that of its guard.
  abbrev IsCounted : Slot C → Type 0
  IsCounted s = (s.owns ≡ true) × (io.work s.context ≡ s.busy + 1)

  abbrev AllCounted : List (Slot C) → Type 0
  AllCounted [] = Unit
  AllCounted (s ∷ ss) = IsCounted s × AllCounted ss

  -- No thread has ended: run has not returned at any context.
  abbrev pub NoneEnds : List (Slot C) → Type 0
  NoneEnds [] = Unit
  NoneEnds (s ∷ ss) = (io.run_returns s.context ≡ false) × NoneEnds ss

  -- All the work that other code has started is finished.
  abbrev pub all_done : List (Slot C) → Bool
  all_done [] = true
  all_done (s ∷ ss) = (s.busy == 0) && all_done ss

  create-AllCounted : (n : ℕ) → Counts io → AllCounted (create io n)
  unfolding create
  create-AllCounted zero l = tt
  create-AllCounted (suc n) l =
      ((refl, omega (arith, l.started io.fresh, l.none_at_first)), create-AllCounted n l)

  start_work-IsCounted : (s : Slot C) → Counts io → IsCounted s → IsCounted (start_work io s)
  start_work-IsCounted s l (o, w) = (o, omega (arith, w, l.started s.context))

  finish_work-IsCounted : (s : Slot C) → Counts io → IsCounted s → IsCounted (finish_work io s)
  finish_work-IsCounted s l (o, w) = ground (arith, o, w, l.finished s.context)

  change_at-AllCounted :
      (f : Slot C → Slot C) (i : ℕ) (ss : List (Slot C))
      → ((s : Slot C) → IsCounted s → IsCounted (f s))
      → AllCounted ss
      → AllCounted (change_at io f i ss)
  change_at-AllCounted f i [] k v = v
  change_at-AllCounted f zero (s ∷ ss) k (c, v) = (k s c, v)
  change_at-AllCounted f (suc i) (s ∷ ss) k (c, v) = (c, change_at-AllCounted f i ss k v)

  run-AllCounted :
      (es : List Event) (ss : List (Slot C)) → Counts io → AllCounted ss → AllCounted (run io es ss)
  unfolding run
  run-AllCounted [] ss l v = v
  run-AllCounted (starts i ∷ es) ss l v =
      run-AllCounted es (change_at io (start_work io) i ss) l
        (change_at-AllCounted (start_work io) i ss (λ s c. start_work-IsCounted s l c) v)
  run-AllCounted (finishes i ∷ es) ss l v =
      run-AllCounted es (change_at io (finish_work io) i ss) l
        (change_at-AllCounted (finish_work io) i ss (λ s c. finish_work-IsCounted s l c) v)

  counted-NoneEnds : (ss : List (Slot C)) → Counts io → AllCounted ss → NoneEnds ss
  counted-NoneEnds [] l v = tt
  counted-NoneEnds (s ∷ ss) l ((o, w), v) =
      (ground (arith, l.returns s.context, w), counted-NoneEnds ss l v)

  reset_returns :
      (s : Slot C) → Counts io → IsCounted s → io.run_returns (reset io s).context ≡ (s.busy == 0)
  reset_returns s l (o, w) =
      ap
        (λ b.
          io.run_returns
            (if b
              then record s { context = io.work_finished s.context; owns = false }
              else s).context)
        o
      ∙ l.returns (io.work_finished s.context)
      ∙ ap (λ k. k == 0) (omega (arith, w, l.finished s.context))

  reset_joins :
      (ss : List (Slot C)) → Counts io → AllCounted ss → joins io (reset_all io ss) ≡ all_done ss
  unfolding joins reset_all
  reset_joins [] l v = refl
  reset_joins (s ∷ ss) l (c, v) = rw (reset_returns s l c, reset_joins ss l v) refl

  -- Whatever work other code starts and finishes at the contexts of a new pool, no thread ends
  -- before stop; and once stop has reset the guards, it returns if and only if all of that work has
  -- been finished.
  pub ends_lem :
      (n : ℕ) (es : List Event)
      → Counts io
      → NoneEnds (run io es (create io n))
        × (joins io (reset_all io (run io es (create io n))) ≡ all_done (run io es (create io n)))
  ends_lem n es l =
      let v = run-AllCounted es (create io n) l (create-AllCounted n l) in
      (counted-NoneEnds (run io es (create io n)) l v, reset_joins (run io es (create io n)) l v)
