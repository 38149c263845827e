-- ===== src/SafeMap/Tests.antt =====
-- A table of two buckets, with keys that are their own hashes.
use cxx.Common.{ℕ, ◌≡◌, arith, some, List, [], ◌∷◌, nat_eq}
use cxx.SafeMap.{new, value_for, find_entry_for, get_map}
use cxx.SafeMap.History.{Update, adds, removes, updated, last_value, history_lem}

abbrev hash : ℕ → ℕ
hash k = k

-- 3 is added twice, 5 is added and removed; the last update stands first.
abbrev updates : List (Update ℕ ℕ)
updates = adds 3 6 ∷ removes 5 ∷ adds 5 1 ∷ adds 3 4 ∷ []

history_lem_example :
    (m : List (List (ℕ × ℕ))) × (updated hash updates (new 2) ≡ some m)
    × (value_for hash m 3 9 ≡ some 6)
    × (find_entry_for 3 (get_map m) ≡ some 6)
unfolding last_value
history_lem_example = history_lem hash 2 updates 3 9 (omega arith)
