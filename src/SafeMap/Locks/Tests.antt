-- ===== src/SafeMap/Locks/Tests.antt =====
-- An update between two locks of getMap, one that has to wait, and one after it.
use cxx.Common.{ℕ, ◌≡◌, refl, arith, Option, none, some, List, [], ◌∷◌, ◌++◌, replicate, nat_eq}
use cxx.SafeMap.{new, add_or_update_for, remove_for, insert_all, insert, add_to}
use cxx.SafeMap.History.{adds, removes}
use cxx.SafeMap.Locks.{
  Reader, Shared, Move, reader_goes_on, other_updates, reader_step, apply, shared_step, run, start,
}
use cxx.SafeMap.Locks.Reading.{IsSnapshot}
use cxx.SafeMap.Locks.Snapshots.{getting_lem}

abbrev hash : ℕ → ℕ
hash k = k

-- The second update of the key 2 finds its bucket locked.
abbrev moves : List (Move ℕ ℕ)
moves =
    other_updates (adds 2 7)
    ∷ reader_goes_on
    ∷ other_updates (adds 3 8)
    ∷ other_updates (adds 2 9)
    ∷ reader_goes_on
    ∷ reader_goes_on
    ∷ reader_goes_on
    ∷ reader_goes_on
    ∷ reader_goes_on
    ∷ other_updates (removes 3)
    ∷ []

getting_lem_example :
    (s : Shared ℕ ℕ) × (res : List (ℕ × ℕ)) × (run hash
        (moves ++ replicate 6 reader_goes_on)
        (start 2)
      ≡ some s)
    × (s.reader ≡ Reader.returned res)
    × IsSnapshot hash s.updates res
getting_lem_example = getting_lem hash 2 moves (omega arith)

abbrev reader_of : Option (Shared ℕ ℕ) → Option (Reader ℕ ℕ)
reader_of none = none
reader_of (some s) = some s.reader

both_values : reader_of (run hash moves (start 2)) ≡ some (Reader.returned ((3, 8) ∷ (2, 7) ∷ []))
unfolding run shared_step reader_step apply add_or_update_for remove_for insert_all insert new
    add_to
both_values = refl
