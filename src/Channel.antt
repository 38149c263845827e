-- ===== src/Channel.antt =====
-- CSPChannel of include/CSPChannel.hpp: a bounded channel between threads. Each call holds the lock
-- but while it waits, so a call that returns is one change of the state; a call whose wait
-- condition does not hold yet is `none`.
pub mod Order
mod Tests
use cxx.Common.{
  ◌≡◌, ℕ, Bool, true, false, ◌&&◌, ◌||◌, Option, none, some, List, [], ◌∷◌, ◌++◌, length, ◌==◌, ltb,
  if◌then◌else◌,
}

pub record Channel {ℓ} (T : Type ℓ) : Type ℓ where
  pub queue : List T
  pub capacity : ℕ
  pub stopped : Bool

unfoldable pub new {ℓ} : {T : Type ℓ} → ℕ → Channel T
new capacity = record { queue = []; capacity = capacity; stopped = false }

module _ {ℓ} {T : Type ℓ} where
  -- What send waits for
  abbrev pub may_send : Channel T → Bool
  may_send c =
      ((c.capacity == 0) && (length c.queue == 0)) || (ltb (length c.queue) c.capacity || c.stopped)

  unfoldable pub send : T → Channel T → Option (Bool × Channel T)
  send x c =
      if may_send c
      then (if c.stopped
          then some (false, c)
          else some (
            true,
            record { queue = c.queue ++ x ∷ []; capacity = c.capacity; stopped = c.stopped },
          ))
      else none

  -- The result is `some none` where the code returns false.
  abbrev pub take_front : List T → Channel T → Option (Option T × Channel T)
  take_front [] c = if c.stopped then some (none, c) else none
  take_front (x ∷ xs) c =
      some (some x, record { queue = xs; capacity = c.capacity; stopped = c.stopped })

  unfoldable pub recv : Channel T → Option (Option T × Channel T)
  recv c = take_front c.queue c

  unfoldable pub stop : Channel T → Channel T
  stop c = record { queue = c.queue; capacity = c.capacity; stopped = true }

  -- A call that has returned.
  pub data Step : Channel T → List T → List T → Channel T → Type ℓ where
    sent : (c c' : Channel T) (x : T) → send x c ≡ some (true, c') → Step c (x ∷ []) [] c'
    refused : (c c' : Channel T) (x : T) → send x c ≡ some (false, c') → Step c [] [] c'
    received : (c c' : Channel T) (x : T) → recv c ≡ some (some x, c') → Step c [] (x ∷ []) c'
    ended : (c c' : Channel T) → recv c ≡ some (none, c') → Step c [] [] c'
    stopped_by : (c : Channel T) → Step c [] [] (stop c)

  -- The calls of all threads in the order in which they return, with what was sent and received.
  pub data Run : Channel T → List T → List T → Channel T → Type ℓ where
    done : (c : Channel T) → Run c [] [] c
    next :
        (c₀ c₁ c₂ : Channel T) (ins₁ outs₁ ins₂ outs₂ : List T)
        → Step c₀ ins₁ outs₁ c₁
        → Run c₁ ins₂ outs₂ c₂
        → Run c₀ (ins₁ ++ ins₂) (outs₁ ++ outs₂) c₂
