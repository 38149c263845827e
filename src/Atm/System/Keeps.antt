-- ===== src/Atm/System/Keeps.antt =====
-- The rule by which a property is carried through a step and through a schedule.
use cxx.Common.{Bool, true, false, List, [], ◌∷◌, if◌then◌else◌}
use cxx.Atm.System.Defs.{System, Move, live_step, step, run}

if_keeps {ℓ} : (P : System → Type ℓ) (b : Bool) (s t : System) → P s → P t → P (if b then s else t)
if_keeps P true s t h k = h
if_keeps P false s t h k = k

pub step_keeps {ℓ} :
    (P : System → Type ℓ) (s : System) (m : Move) → P s → P (live_step s m) → P (step s m)
unfolding step
step_keeps P s m h k = if_keeps P s.aborted s (live_step s m) h k

-- What every live step keeps holds after any schedule.
pub run_keeps {ℓ} :
    (P : System → Type ℓ)
    → ((s : System) (m : Move) → P s → P (live_step s m))
    → (s : System) (ms : List Move) → P s
    → P (run s ms)
unfolding run
run_keeps P keep s [] h = h
run_keeps P keep s (m ∷ ms) h = run_keeps P keep (step s m) ms (step_keeps P s m h (keep s m h))
