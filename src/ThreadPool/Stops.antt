-- ===== src/ThreadPool/Stops.antt =====
-- A pool that has been stopped comes to rest.
use cxx.Common.{
  ◌⊎◌, ℕ, ◌+◌, ◌≤◌, ◌≡◌, ◌≢◌, ◌∙◌, refl, sym, ap, Bool, true, false, none, some, List, [], ◌∷◌,
  length, length-append, total, total-append, arith,
}
use cxx.ThreadPool.{
  Phase, testing, waiting, taken, running, returned, Pool, commit, Moved, move, stop, taken_off,
  emplace, Step, commits, emplaces, refused, stopping, worked, Run, done, next,
}

true_ne_false : true ≢ false
true_ne_false e = cc

module _ {ℓ} {Task : Type ℓ} where
  -- 1 for a worker at the wait
  abbrev pub waits : Phase Task → ℕ
  waits waiting = 1
  waits _ = 0

  -- 1 for a worker that has a task to begin or may still take one
  abbrev pub may_begin : Phase Task → ℕ
  may_begin waiting = 1
  may_begin (taken t) = 1
  may_begin _ = 0

  -- 1 for the move by which a worker begins its task
  abbrev pub begun : Phase Task → ℕ
  begun (taken t) = 1
  begun _ = 0

  -- How many moves a worker has left at most
  abbrev pub moves_left : Phase Task → ℕ
  moves_left returned = 0
  moves_left testing = 1
  moves_left (running t) = 2
  moves_left (taken t) = 3
  moves_left waiting = 4

  -- The moves of the workers in a step and in a run
  abbrev pub step_moves : (p p' : Pool Task) (ins outs : List Task) → Step p ins outs p' → ℕ
  step_moves _ _ _ _ (worked p before after now m at e) = 1
  step_moves _ _ _ _ _ = 0

  abbrev pub run_moves : (p p' : Pool Task) (ins outs : List Task) → Run p ins outs p' → ℕ
  run_moves _ _ _ _ (done p) = 0
  run_moves _ _ _ _ (next p₀ p₁ p₂ i₁ o₁ i₂ o₂ s r) =
      step_moves p₀ p₁ i₁ o₁ s + run_moves p₁ p₂ i₂ o₂ r

  -- The tasks that are begun in a step and in a run
  abbrev pub step_begun : (p p' : Pool Task) (ins outs : List Task) → Step p ins outs p' → ℕ
  step_begun _ _ _ _ (worked p before after now m at e) = begun now
  step_begun _ _ _ _ _ = 0

  abbrev pub run_begun : (p p' : Pool Task) (ins outs : List Task) → Run p ins outs p' → ℕ
  run_begun _ _ _ _ (done p) = 0
  run_begun _ _ _ _ (next p₀ p₁ p₂ i₁ o₁ i₂ o₂ s r) =
      step_begun p₀ p₁ i₁ o₁ s + run_begun p₁ p₂ i₂ o₂ r

  move_stopped :
      (p : Pool Task) (now : Phase Task) (m : Moved Task)
      → p.stopped ≡ true
      → move p now ≡ some m
      → (1 + moves_left m.phase ≤ moves_left now)
        × (length (taken_off now m.phase) + waits m.phase ≤ waits now)
        × (begun now + may_begin m.phase ≤ may_begin now)
  unfolding move
  move_stopped p now m h e = ground arith

  -- What one step of a stopped pool does
  abbrev Slows : (p p' : Pool Task) → ℕ → ℕ → ℕ → ℕ → Type 0
  Slows p p' ins outs moves begins =
      (p'.stopped ≡ true)
      × (ins + length p'.committing ≤ length p.committing)
      × (moves + total moves_left p'.workers ≤ total moves_left p.workers)
      × (outs + total waits p'.workers ≤ total waits p.workers)
      × (begins + total may_begin p'.workers ≤ total may_begin p.workers)

  commit_stopped :
      (p p' : Pool Task) (t : Task) (b : Bool)
      → p.stopped ≡ true
      → commit t p ≡ (b, p')
      → (b ≡ false) × (p ≡ p')
  unfolding commit
  commit_stopped p p' t b h e = ground arith

  step_stopped :
      (p p' : Pool Task) (ins outs : List Task)
      → p.stopped ≡ true
      → (s : Step p ins outs p')
      → Slows p p'
          (length ins)
          (length outs)
          (step_moves p p' ins outs s)
          (step_begun p p' ins outs s)
  step_stopped _ _ _ _ h (commits p p' t e) =
      absurd (true_ne_false ((commit_stopped p p' t true h e).0))
  step_stopped _ _ _ _ h (emplaces p before after t at) =
      let size = length-append before (t ∷ after) in
      let size' = length-append before after in
      unfold emplace in
      (h, omega (arith, size, size', ap length at), omega arith, omega arith, omega arith)
  step_stopped _ _ _ _ h (refused p p' t e) =
      let same = (commit_stopped p p' t false h e).1 in
      (
        ap (λ q. q.stopped) (sym same) ∙ h,
        omega (arith, ap (λ q. length q.committing) same),
        omega (arith, ap (λ q. total moves_left q.workers) same),
        omega (arith, ap (λ q. total waits q.workers) same),
        omega (arith, ap (λ q. total may_begin q.workers) same),
      )
  step_stopped _ _ _ _ h (stopping p) =
      unfold stop in (refl, omega arith, omega arith, omega arith, omega arith)
  step_stopped _ _ _ _ h (worked p before after now m at e) =
      let (f, g, b) = move_stopped p now m h e in
      (
        h,
        omega arith,
        omega (
          arith,
          f,
          ap (total moves_left) at,
          total-append moves_left before (now ∷ after),
          total-append moves_left before (m.phase ∷ after),
        ),
        omega (
          arith,
          g,
          ap (total waits) at,
          total-append waits before (now ∷ after),
          total-append waits before (m.phase ∷ after),
        ),
        omega (
          arith,
          b,
          ap (total may_begin) at,
          total-append may_begin before (now ∷ after),
          total-append may_begin before (m.phase ∷ after),
        ),
      )

  run_stopped :
      (p p' : Pool Task) (ins outs : List Task)
      → p.stopped ≡ true
      → (r : Run p ins outs p')
      → Slows p p'
          (length ins)
          (length outs)
          (run_moves p p' ins outs r)
          (run_begun p p' ins outs r)
  run_stopped _ _ _ _ h (done p) = (h, omega arith, omega arith, omega arith, omega arith)
  run_stopped _ _ _ _ h (next p₀ p₁ p₂ i₁ o₁ i₂ o₂ s r) =
      let (h₁, a₁, b₁, c₁, d₁) = step_stopped p₀ p₁ i₁ o₁ h s in
      let (h₂, a₂, b₂, c₂, d₂) = run_stopped p₁ p₂ i₂ o₂ h₁ r in
      (
        h₂,
        omega (arith, a₁, a₂, length-append i₁ i₂),
        omega (arith, b₁, b₂),
        omega (arith, c₁, c₂, length-append o₁ o₂),
        omega (arith, d₁, d₂),
      )

  -- After a stop no more tasks are put into the queue than there are calls of commit that had
  -- tested stop_ before; no more are taken off than there were workers at the wait; no more are
  -- begun than there were workers at the wait or with a task that they had taken; and all workers
  -- together make no more moves than they had left: four from the wait, three with a task taken, two
  -- in a task and one at the test of the loop.
  pub stop_ends :
      (p p' : Pool Task) (ins outs : List Task) (r : Run (stop p) ins outs p')
      → (length ins ≤ length p.committing)
        × (length outs ≤ total waits p.workers)
        × (run_begun (stop p) p' ins outs r ≤ total may_begin p.workers)
        × (run_moves (stop p) p' ins outs r ≤ total moves_left p.workers)
  unfolding stop
  stop_ends p p' ins outs r =
      let (h, a, b, c, d) = run_stopped (stop p) p' ins outs refl r in
      (omega (arith, a), omega (arith, c), omega (arith, d), omega (arith, b))

  -- A worker has no move only when it has returned or when it waits in a pool that has no task and
  -- has not been stopped.
  pub stuck_lem :
      (p : Pool Task) (now : Phase Task)
      → move p now ≡ none
      → (now ≡ returned) ⊎ ((now ≡ waiting) × (p.tasks ≡ []) × (p.stopped ≡ false))
  unfolding move
  stuck_lem p now e = ground arith
