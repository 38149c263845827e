-- ===== src/SafeList/Tests.antt =====
-- A list with two elements.
use cxx.Common.{List, ℕ, ◌≡◌, refl, Bool, none, some, [], ◌∷◌, arith, ◌==◌}
use cxx.SafeList.{SafeList, ok, fault, new, ◌>>=◌, for_each}
use cxx.SafeList.Remove.{remove_if, remove_first_if}
use cxx.SafeList.Chain.{link, head_node, one, more, Holds, something}
use cxx.SafeList.Built.{Push, front, back, pushed, expected, pushed-for_each}
use cxx.SafeList.Removals.{removals-Holds}

abbrev five : ℕ
five = 5

abbrev six : ℕ
six = 6

abbrev two : SafeList ℕ
two = record {
  nodes = some (head_node (some 2)) ∷ some (link six none) ∷ some (link five (some 1)) ∷ [];
  head = 0;
  tail = some 1;
}

two-Holds : Holds two (five ∷ six ∷ [])
two-Holds =
    something 2 1 (five ∷ six ∷ []) refl (more 2 1 1 five (six ∷ []) refl (one 1 six refl)) refl

abbrev is_six : ℕ → Bool
is_six n = n == 6

abbrev pushes : List (Push ℕ)
pushes = front six ∷ back five ∷ front five ∷ []

pushed-for_each_example : (pushed 9 pushes new >>= for_each 4) ≡ ok (five ∷ six ∷ five ∷ [])
unfolding expected
pushed-for_each_example = pushed-for_each 9 4 pushes (omega arith)

removals-Holds_example :
    (remove_if 3 2 is_six two ≡ fault) × (remove_first_if 3 2 is_six two ≡ fault)
removals-Holds_example =
    removals-Holds 3 2 is_six two (five ∷ six ∷ []) (omega arith) (omega arith) two-Holds
