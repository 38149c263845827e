-- ===== src/Messaging/Chains.antt =====
-- Which object of a handler chain waits.
use cxx.Common.{◌≡◌, Bool, false, List, [], ◌∷◌, arith, refl}
use cxx.Messaging.{begin, handle, move, waits}

-- What an expression does to a chain after `wait()`.
pub data Build : List Bool → Type 0 where
  start : Build begin
  handles : {c : List Bool} → Build c → Build (handle c)
  moves : {c : List Bool} → Build c → Build (move c)

-- The newest object is the only one that is not chained.
abbrev NewestWaits : List Bool → Type 0
NewestWaits [] = ⊥
NewestWaits (c ∷ rest) = (c ≡ false) × (waits rest ≡ 0)

handle-NewestWaits : (c : List Bool) → NewestWaits c → NewestWaits (handle c)
unfolding handle waits
handle-NewestWaits [] h = h
handle-NewestWaits (c ∷ rest) h = (refl, h.1)

move-NewestWaits : (c : List Bool) → NewestWaits c → NewestWaits (move c)
unfolding move waits
move-NewestWaits [] h = h
move-NewestWaits (c ∷ rest) h = h

Build-NewestWaits : {c : List Bool} → Build c → NewestWaits c
unfolding begin waits
Build-NewestWaits start = (refl, refl)
Build-NewestWaits (handles {c} b) = handle-NewestWaits c (Build-NewestWaits b)
Build-NewestWaits (moves {c} b) = move-NewestWaits c (Build-NewestWaits b)

waits_of_NewestWaits : (c : List Bool) → NewestWaits c → waits c ≡ 1
unfolding waits
waits_of_NewestWaits [] h = absurd h
waits_of_NewestWaits (c ∷ rest) h = ground arith

-- However a chain is built from `wait()` by `handle` calls and moves, exactly one of its objects
-- waits for a message when they are destroyed.
pub waits-Build : {c : List Bool} → Build c → waits c ≡ 1
waits-Build {c} b = waits_of_NewestWaits c (Build-NewestWaits b)
