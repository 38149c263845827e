-- ===== src/ThreadPool/Runs.antt =====
-- What a pool does with its tasks, and its count of idle threads.
use cxx.Common.{
  ℕ, zero, suc, ◌+◌, ◌≤◌, ◌≡◌, ◌∙◌, refl, sym, ap, true, false, some, List, [], ◌∷◌, ◌++◌,
  append_assoc, append-nil, subst, length, length-append, length-replicate, replicate, total,
  total-append, arith,
}
use cxx.ThreadPool.{
  Phase, testing, waiting, taken, running, returned, Pool, threads, new, commit, Moved, move, stop,
  taken_off, emplace, Step, commits, emplaces, refused, stopping, worked, Run, done, next,
}

module _ {ℓ} {Task : Type ℓ} where
  commit-tasks : (p p' : Pool Task) (t : Task) → commit t p ≡ (true, p') → p'.tasks ≡ p.tasks
  unfolding commit
  commit-tasks p p' t e = ground arith

  refused_lem : (p p' : Pool Task) (t : Task) → commit t p ≡ (false, p') → p ≡ p'
  unfolding commit
  refused_lem p p' t e = ground arith

  move-tasks :
      (p : Pool Task) (now : Phase Task) (m : Moved Task)
      → move p now ≡ some m
      → p.tasks ≡ taken_off now m.phase ++ m.left
  unfolding move
  move-tasks p now m e = ground arith

  step-tasks :
      (p p' : Pool Task) (ins outs : List Task)
      → Step p ins outs p'
      → p.tasks ++ ins ≡ outs ++ p'.tasks
  step-tasks _ _ _ _ (commits p p' t e) = append-nil p.tasks ∙ sym (commit-tasks p p' t e)
  step-tasks _ _ _ _ (emplaces p before after t at) = unfold emplace in refl
  step-tasks _ _ _ _ (refused p p' t e) =
      append-nil p.tasks ∙ ap (λ q. q.tasks) (refused_lem p p' t e)
  step-tasks _ _ _ _ (stopping p) = append-nil p.tasks ∙ (unfold stop in refl)
  step-tasks _ _ _ _ (worked p before after now m at e) = append-nil p.tasks ∙ move-tasks p now m e

  -- Whatever the threads do, the workers take the tasks off the queue in the order in which the
  -- calls of commit put them in under the lock, and each at most once: what was in the queue,
  -- followed by what was put in, is what was taken off, followed by what is in it now.
  pub run-tasks :
      (p p' : Pool Task) (ins outs : List Task)
      → Run p ins outs p'
      → p.tasks ++ ins ≡ outs ++ p'.tasks
  run-tasks _ _ _ _ (done p) = append-nil p.tasks
  run-tasks _ _ _ _ (next p₀ p₁ p₂ i₁ o₁ i₂ o₂ s r) =
      sym (append_assoc p₀.tasks i₁ i₂)
      ∙ ap (λ q. q ++ i₂) (step-tasks p₀ p₁ i₁ o₁ s)
      ∙ append_assoc o₁ p₁.tasks i₂
      ∙ ap (λ q. o₁ ++ q) (run-tasks p₁ p₂ i₂ o₂ r)
      ∙ sym (append_assoc o₁ o₂ p₂.tasks)

  -- 1 for a worker that is in a task
  abbrev pub busy : Phase Task → ℕ
  busy (running t) = 1
  busy _ = 0

  -- thread_num_ counts those of the `n` workers that are in no task.
  abbrev pub Counts : ℕ → Pool Task → Type 0
  Counts n p = (length p.workers ≡ n) × (p.thread_num + total busy p.workers ≡ n)

  busy-le : (ws : List (Phase Task)) → total busy ws ≤ length ws
  busy-le [] = omega arith
  busy-le (testing ∷ ws) = omega (arith, busy-le ws)
  busy-le (waiting ∷ ws) = omega (arith, busy-le ws)
  busy-le (taken t ∷ ws) = omega (arith, busy-le ws)
  busy-le (running t ∷ ws) = omega (arith, busy-le ws)
  busy-le (returned ∷ ws) = omega (arith, busy-le ws)

  -- The moves keep the sum of thread_num_ and the worker's share, if there is an idle thread to
  -- count.
  move-busy :
      (p : Pool Task) (now : Phase Task) (m : Moved Task)
      → move p now ≡ some m
      → 1 ≤ p.thread_num + busy now
      → m.count + busy m.phase ≡ p.thread_num + busy now
  unfolding move
  move-busy p now m e h = ground arith

  commit-Counts :
      (n : ℕ) (p p' : Pool Task) (t : Task) → Counts n p → commit t p ≡ (true, p') → Counts n p'
  unfolding commit
  commit-Counts n p p' t c e = ground arith

  step-Counts :
      (n : ℕ) (p p' : Pool Task) (ins outs : List Task)
      → Counts n p
      → Step p ins outs p'
      → Counts n p'
  step-Counts n _ _ _ _ c (commits p p' t e) = commit-Counts n p p' t c e
  step-Counts n _ _ _ _ c (emplaces p before after t at) = unfold emplace in c
  step-Counts n _ _ _ _ c (refused p p' t e) = subst (Counts n) (refused_lem p p' t e) c
  step-Counts n _ _ _ _ c (stopping p) = unfold stop in c
  step-Counts n _ _ _ _ (size, sum) (worked p before after now m at e) =
      let size' = ap length at ∙ length-append before (now ∷ after) in
      let sum' = ap (total busy) at ∙ total-append busy before (now ∷ after) in
      let kept =
        move-busy p now m e
          (omega (arith, size, sum, size', sum', busy-le before, busy-le after)) in
      (
        omega (arith, size, size', length-append before (m.phase ∷ after)),
        omega (arith, sum, sum', kept, total-append busy before (m.phase ∷ after)),
      )

  run-Counts :
      (n : ℕ) (p p' : Pool Task) (ins outs : List Task)
      → Counts n p
      → Run p ins outs p'
      → Counts n p'
  run-Counts n _ _ _ _ c (done p) = c
  run-Counts n _ _ _ _ c (next p₀ p₁ p₂ i₁ o₁ i₂ o₂ s r) =
      run-Counts n p₁ p₂ i₂ o₂ (step-Counts n p₀ p₁ i₁ o₁ c s) r

  idle_replicate : (n : ℕ) (ws : List (Phase Task)) → ws ≡ replicate n testing → total busy ws ≡ 0
  idle_replicate zero ws e = ap (total busy) e
  idle_replicate (suc n) ws e =
      ap (total busy) e ∙ omega (arith, idle_replicate n (replicate n testing) refl)

  new-Counts : (n : ℕ) (p : Pool Task) → p ≡ new n → Counts (threads n) p
  unfolding new
  new-Counts n p e = subst (Counts (threads n)) (sym e) (
    length-replicate {A = Phase Task} (threads n) testing,
    omega (arith, idle_replicate (threads n) (replicate (threads n) testing) refl),
  )

  -- In every state of a new pool, thread_num_ and the workers that are in a task add up to the
  -- number of workers: the hardware's threads, or one.
  pub thread_num_lem :
      (n : ℕ) (p : Pool Task) (ins outs : List Task)
      → Run (new n) ins outs p
      → (length p.workers ≡ threads n) × (p.thread_num + total busy p.workers ≡ threads n)
  thread_num_lem n p ins outs r =
      run-Counts (threads n) (new n) p ins outs (new-Counts n (new n) refl) r
