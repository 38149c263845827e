-- ===== src/SafeMap.antt =====
-- SafeMap of include/data_struct/SafeMap.hpp: a hash table whose buckets are lists of pairs. Every
-- operation on one bucket holds that bucket's lock throughout, and getMap holds all of them, so
-- each is one change of the state. The hash is a parameter.
pub mod Bucket
pub mod Table
pub mod History
pub mod Locks
mod Tests
use cxx.Common.{
  ℕ, zero, ◌+◌, ◌%◌, Bool, true, false, Option, none, some, List, [], ◌∷◌, length, get_elem?, set,
  replicate, if◌then◌else◌, Eq, ◌==◌,
}

module _ {ℓ} {K V : Type ℓ} ⦃e : Eq K⦄ where
  -- findEntryFor, and the value of the entry
  unfoldable pub find_entry_for : K → List (K × V) → Option V
  find_entry_for key [] = none
  find_entry_for key ((k, v) ∷ rest) = if e.beq k key then some v else find_entry_for key rest

  -- BucketType::addOrUpdateFor
  unfoldable pub add_to : K → V → List (K × V) → List (K × V)
  add_to key value [] = (key, value) ∷ []
  add_to key value ((k, v) ∷ rest) =
      if e.beq k key then (k, value) ∷ rest else (k, v) ∷ add_to key value rest

  -- BucketType::romoveFor
  unfoldable pub remove_from : K → List (K × V) → List (K × V)
  remove_from key [] = []
  remove_from key ((k, v) ∷ rest) = if e.beq k key then rest else (k, v) ∷ remove_from key rest

  -- std::map::insert, on a map as a list of its pairs: a key that is there keeps its value.
  unfoldable pub insert : K × V → List (K × V) → List (K × V)
  unfolding find_entry_for
  insert (k, v) m = elim (find_entry_for k m) [ none ↦ (k, v) ∷ m | some _ ↦ m ]

  unfoldable pub insert_all : List (K × V) → List (K × V) → List (K × V)
  insert_all [] m = m
  insert_all (p ∷ ps) m = insert_all ps (insert p m)

  unfoldable pub insert_buckets : List (List (K × V)) → List (K × V) → List (K × V)
  insert_buckets [] m = m
  insert_buckets (b ∷ bs) m = insert_buckets bs (insert_all b m)

abbrev pub or_default {ℓ} : {V : Type ℓ} → Option V → V → V
or_default none d = d
or_default (some v) d = v

-- The constructor: `num_buckets` empty buckets.
unfoldable pub new {ℓ} : {K V : Type ℓ} → ℕ → List (List (K × V))
new num_buckets = replicate num_buckets []

module _ {ℓ} {K V : Type ℓ} ⦃e : Eq K⦄ (hasher : K → ℕ) where
  -- getBucket: the index; `none` is the remainder by zero, which has no defined meaning.
  abbrev pub index_of : List (List (K × V)) → K → Option ℕ
  index_of buckets key = if length buckets == 0 then none else some (hasher key % length buckets)

  -- getBucket
  abbrev pub get_bucket : List (List (K × V)) → K → Option (ℕ × List (K × V))
  get_bucket buckets key = elim (index_of buckets key) [
    | none ↦ none
    | some i ↦ elim (get_elem? buckets i) [ none ↦ none | some b ↦ some (i, b) ]
  ]

  unfoldable pub value_for : List (List (K × V)) → K → V → Option V
  value_for buckets key default = elim (get_bucket buckets key) [
    | none ↦ none
    | some (i, b) ↦ some (or_default (find_entry_for key b) default)
  ]

  unfoldable pub add_or_update_for : List (List (K × V)) → K → V → Option (List (List (K × V)))
  add_or_update_for buckets key value = elim (get_bucket buckets key) [
    | none ↦ none
    | some (i, b) ↦ some (set buckets i (add_to key value b))
  ]

  unfoldable pub remove_for : List (List (K × V)) → K → Option (List (List (K × V)))
  remove_for buckets key = elim (get_bucket buckets key) [
    | none ↦ none
    | some (i, b) ↦ some (set buckets i (remove_from key b))
  ]

-- getMap
unfoldable pub get_map {ℓ} : {K V : Type ℓ} ⦃e : Eq K⦄ → List (List (K × V)) → List (K × V)
unfolding insert_buckets insert_all
get_map buckets = insert_buckets buckets []
