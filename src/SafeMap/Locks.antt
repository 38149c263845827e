-- ===== src/SafeMap/Locks.antt =====
-- getMap of include/data_struct/SafeMap.hpp among the updates of other threads. An update holds the
-- lock of its bucket throughout, so it is one step; getMap locks one bucket after another, and then
-- copies one after another. An update of a bucket that getMap holds has to wait.
pub mod Reading
pub mod Snapshots
mod Tests
use cxx.Common.{
  ℕ, suc, ◌+◌, Bool, true, false, Option, none, some, List, [], ◌∷◌, length, get_elem?, ltb, ◌==◌,
  if◌then◌else◌, Eq,
}
use cxx.SafeMap.{index_of, add_or_update_for, remove_for, insert_all, new}
use cxx.SafeMap.History.{Update, adds, removes}

-- A call of getMap, by what it does next: lock the bucket with this index, or copy the entries of
-- the one with this index into `res`. Or it has returned, and with that unlocked all buckets.
pub data Reader {ℓ} (K V : Type ℓ) : Type ℓ where
  locks : ℕ → Reader K V
  copies : ℕ → List (K × V) → Reader K V
  returned : List (K × V) → Reader K V

-- `updates`: what addOrUpdateFor and removeFor have done, the last of it first.
pub record Shared {ℓ} (K V : Type ℓ) : Type ℓ where
  pub buckets : List (List (K × V))
  pub reader : Reader K V
  pub updates : List (Update K V)

pub data Move {ℓ} (K V : Type ℓ) : Type ℓ where
  reader_goes_on : Move K V
  other_updates : Update K V → Move K V

abbrev pub key_of {ℓ} : {K V : Type ℓ} → Update K V → K
key_of (adds k v) = k
key_of (removes k) = k

-- Whether getMap holds the lock of this bucket.
abbrev pub holds_lock {ℓ} : {K V : Type ℓ} → Reader K V → ℕ → Bool
holds_lock (locks n) i = ltb i n
holds_lock (copies n res) i = true
holds_lock (returned res) i = false

module _ {ℓ} {K V : Type ℓ} ⦃e : Eq K⦄ where
  abbrev pub copy_bucket : ℕ → List (K × V) → Option (List (K × V)) → Reader K V
  copy_bucket i res none = returned res
  copy_bucket i res (some b) = copies (suc i) (insert_all b res)

  -- The next step of getMap
  unfoldable pub reader_step : List (List (K × V)) → Reader K V → Reader K V
  reader_step buckets (locks n) = if n == length buckets then copies 0 [] else locks (suc n)
  reader_step buckets (copies i res) = copy_bucket i res (get_elem? buckets i)
  reader_step buckets (returned res) = returned res

module _ {ℓ} {K V : Type ℓ} ⦃e : Eq K⦄ (hasher : K → ℕ) where
  unfoldable pub apply : Update K V → List (List (K × V)) → Option (List (List (K × V)))
  apply (adds k v) buckets = add_or_update_for hasher buckets k v
  apply (removes k) buckets = remove_for hasher buckets k

  abbrev pub after_update :
      Shared K V → Update K V → Option (List (List (K × V))) → Option (Shared K V)
  after_update s u none = none
  after_update s u (some buckets) = some (record s { buckets = buckets; updates = u ∷ s.updates })

  -- An update at the bucket with this index, which waits while getMap holds its lock.
  abbrev pub update_at : Shared K V → Update K V → Option ℕ → Option (Shared K V)
  update_at s u none = none
  update_at s u (some i) =
      if holds_lock s.reader i then some s else after_update s u (apply u s.buckets)

  unfoldable pub shared_step : Shared K V → Move K V → Option (Shared K V)
  shared_step s reader_goes_on = some (record s { reader = reader_step s.buckets s.reader })
  shared_step s (other_updates u) = update_at s u (index_of hasher s.buckets (key_of u))

  unfoldable pub run : List (Move K V) → Shared K V → Option (Shared K V)
  run [] s = some s
  run (m ∷ ms) s = elim (shared_step s m) [ none ↦ none | some s' ↦ run ms s' ]

-- A new table, on which getMap has been called.
abbrev pub start {ℓ} : {K V : Type ℓ} → ℕ → Shared K V
start num_buckets = record { buckets = new num_buckets; reader = locks 0; updates = [] }
