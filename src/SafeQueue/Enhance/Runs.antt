-- ===== src/SafeQueue/Enhance/Runs.antt =====
-- The chain of nodes against a queue that is a list.
use cxx.Common.{◌≡◌, refl, ap, Option, none, some, List, [], ◌∷◌, ◌++◌}
use cxx.SafeQueue.Enhance.{Queue, Call, returns, waits, faults, new, push, wait_pop, try_pop}
use cxx.SafeQueue.Enhance.Fifo.{Chained, new-Chained, push-Chained, pop-Chained, pop_of_empty}

pub data Request {ℓ} (T : Type ℓ) : Type ℓ where
  pushes : T → Request T
  wait_pops : Request T
  try_pops : Request T

-- What a caller sees: the push has returned, the pop gives an element or none, the call waits, or it
-- has reached an access to a freed node or through a null pointer.
pub data Answer {ℓ} (T : Type ℓ) : Type ℓ where
  done : Answer T
  gives : Option T → Answer T
  is_waiting : Answer T
  crashes : Answer T

module _ {ℓ} {T : Type ℓ} where
  -- What a call answers, and the queue after it: a call that waits or crashes changes nothing.
  abbrev pushed : Queue T → Call (Queue T) → Answer T × Queue T
  pushed q (returns q') = (done, q')
  pushed q waits = (is_waiting, q)
  pushed q faults = (crashes, q)

  abbrev popped : Queue T → Call (T × Queue T) → Answer T × Queue T
  popped q (returns (x, q')) = (gives (some x), q')
  popped q waits = (is_waiting, q)
  popped q faults = (crashes, q)

  abbrev tried : Queue T → Call (Option T × Queue T) → Answer T × Queue T
  tried q (returns (o, q')) = (gives o, q')
  tried q waits = (is_waiting, q)
  tried q faults = (crashes, q)

  unfoldable pub answer : Request T → Queue T → Answer T × Queue T
  answer (pushes x) q = pushed q (push x q)
  answer wait_pops q = popped q (wait_pop q)
  answer try_pops q = tried q (try_pop q)

  unfoldable pub answers : List (Request T) → Queue T → List (Answer T)
  unfolding answer
  answers [] q = []
  answers (r ∷ rs) q = (answer r q).0 ∷ answers rs (answer r q).1

  -- The same calls on the list of the elements, oldest first.
  unfoldable pub fifo : List (Request T) → List T → List (Answer T)
  fifo [] xs = []
  fifo (pushes x ∷ rs) xs = done ∷ fifo rs (xs ++ x ∷ [])
  fifo (wait_pops ∷ rs) [] = is_waiting ∷ fifo rs []
  fifo (wait_pops ∷ rs) (x ∷ xs) = gives (some x) ∷ fifo rs xs
  fifo (try_pops ∷ rs) [] = gives none ∷ fifo rs []
  fifo (try_pops ∷ rs) (x ∷ xs) = gives (some x) ∷ fifo rs xs

  pub answers_lem :
      (rs : List (Request T)) (q : Queue T) (xs : List T) → Chained q xs → answers rs q ≡ fifo rs xs
  unfolding answers fifo answer
  answers_lem [] q xs h = refl
  answers_lem (pushes x ∷ rs) q xs h =
      let (q', e, h') = push-Chained q xs x h in
      rw e (ap (λ r. done ∷ r) (answers_lem rs q' (xs ++ x ∷ []) h'))
  answers_lem (wait_pops ∷ rs) q [] h =
      rw ((pop_of_empty q h).0) (ap (λ r. is_waiting ∷ r) (answers_lem rs q [] h))
  answers_lem (wait_pops ∷ rs) q (x ∷ xs) h =
      let (q', e, f, h') = pop-Chained q x xs h in
      rw e (ap (λ r. gives (some x) ∷ r) (answers_lem rs q' xs h'))
  answers_lem (try_pops ∷ rs) q [] h =
      rw ((pop_of_empty q h).1) (ap (λ r. gives none ∷ r) (answers_lem rs q [] h))
  answers_lem (try_pops ∷ rs) q (x ∷ xs) h =
      let (q', e, f, h') = pop-Chained q x xs h in
      rw f (ap (λ r. gives (some x) ∷ r) (answers_lem rs q' xs h'))

  -- Whatever is called on a new queue, one call after another, every call answers what it does on a
  -- list of the elements: no access to a freed node and none through a null pointer is reached.
  pub answers-fifo : (rs : List (Request T)) → answers rs new ≡ fifo rs []
  answers-fifo rs = answers_lem rs new [] new-Chained
