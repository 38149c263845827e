-- ===== src/CircleQueue/Drain.antt =====
-- The destructor of the ring.
use cxx.Common.{ℕ, zero, suc, ◌≡◌, refl, false, none, List, ◌∷◌, arith, ◌==◌}
use cxx.CircleQueue.{Ring, destroy_all}
use cxx.CircleQueue.Fifo.{Holds}

module _ {ℓ} {T : Type ℓ} where
  loops : (fuel : ℕ) (q : Ring T) → (q.head == q.tail) ≡ false → destroy_all fuel q ≡ none
  unfolding destroy_all
  loops zero q h = refl
  loops (suc fuel) q h = rw (h, destroy_all) (rw (loops fuel q h))

  -- The destructor of a queue that still holds an element never ends, whatever the fuel.
  pub destroy_all-Holds :
      (fuel : ℕ) (q : Ring T) (x : T) (xs : List T) → Holds q (x ∷ xs) → destroy_all fuel q ≡ none
  destroy_all-Holds fuel q x xs h = loops fuel q (ground (arith, h.tail_at, h.head_in, h.room))
