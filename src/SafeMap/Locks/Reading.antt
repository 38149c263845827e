-- ===== src/SafeMap/Locks/Reading.antt =====
-- What getMap has copied, while no other thread can update the table.
use cxx.Common.{
  ℕ, zero, suc, ◌+◌, ◌-◌, ◌≤◌, ◌<◌, ◌≡◌, ◌∙◌, refl, sym, ap, arith, Option, none, some, List, [],
  ◌∷◌, ◌++◌, length, get_elem?, in_of_get_elem?, set, length-set, length-replicate, drop, ◌==◌, Eq,
  Bool-cases, inl, inr,
}
use mathlib.Core.Option.{some-injective}
use cxx.SafeMap.{
  find_entry_for, insert_buckets, get_map, new, get_bucket, add_to, remove_from, add_or_update_for,
  remove_for,
}
use cxx.SafeMap.History.{Update, adds, removes, updated, last_value, updated-Keeps, get_map_lem}
use cxx.SafeMap.Locks.{Reader, locks, copies, returned, Shared, copy_bucket, reader_step, apply}

drop_at {ℓ} :
    {A : Type ℓ} (xs : List A) (i : ℕ) (a : A)
    → get_elem? xs i ≡ some a
    → drop i xs ≡ a ∷ drop (suc i) xs
drop_at [] i a e = absurd (cc)
drop_at (x ∷ xs) zero a e = cc
drop_at (x ∷ xs) (suc i) a e = drop_at xs i a e

drop_past {ℓ} : {A : Type ℓ} (xs : List A) (i : ℕ) → get_elem? xs i ≡ none → drop i xs ≡ []
drop_past [] zero e = refl
drop_past [] (suc i) e = refl
drop_past (x ∷ xs) zero e = absurd (cc)
drop_past (x ∷ xs) (suc i) e = drop_past xs i e

pub new-length {ℓ} : (K V : Type ℓ) (n : ℕ) → length (new {K = K} {V = V} n) ≡ n
unfolding new
new-length K V n = length-replicate n []

module _ {ℓ} {K V : Type ℓ} ⦃e : Eq K⦄ (hasher : K → ℕ) where
  -- The map holds the values of a table after some of the updates that have been made, the first
  -- ones: `later` are those that have been made since.
  abbrev pub IsSnapshot : List (Update K V) → List (K × V) → Type ℓ
  IsSnapshot updates res =
      (later seen : List (Update K V)) × (updates ≡ later ++ seen)
      × ((j : K) → find_entry_for j res ≡ last_value seen j)

  -- What getMap has done, by its phase.
  abbrev pub Reading : List (Update K V) → List (List (K × V)) → Reader K V → Type ℓ
  Reading updates buckets (locks n) = Unit {ℓ}
  Reading updates buckets (copies i res) =
      (insert_buckets (drop i buckets) res ≡ get_map buckets) × Unit {ℓ}
  Reading updates buckets (returned res) = IsSnapshot updates res

  -- The steps that getMap has left, at a table of `n` buckets
  abbrev pub left : ℕ → Reader K V → ℕ
  left n (locks k) = (n - k) + n + 2
  left n (copies i res) = (n - i) + 1
  left n (returned res) = 0

  abbrev pub InRange : ℕ → Reader K V → Type 0
  InRange n (locks k) = k ≤ n
  InRange n (copies i res) = Unit
  InRange n (returned res) = Unit

  pub record IsKept (n : ℕ) (s : Shared K V) : Type ℓ where
    pub table : updated hasher s.updates (new n) ≡ some s.buckets
    pub size : length s.buckets ≡ n
    pub in_range : InRange n s.reader
    pub reading : Reading s.updates s.buckets s.reader

  abbrev pub Goes : ℕ → Option (Shared K V) → Type ℓ
  Goes n o = (s : Shared K V) × (o ≡ some s) × IsKept n s

  -- The map that has been copied from all buckets
  pub whole-IsSnapshot :
      (n : ℕ) (us : List (Update K V)) (buckets : List (List (K × V))) (res : List (K × V))
      → 0 < n
      → updated hasher us (new n) ≡ some buckets
      → res ≡ get_map buckets
      → IsSnapshot us res
  whole-IsSnapshot n us buckets res h t r =
      let (m, at, (valid, f)) = updated-Keeps hasher n us h in
      let same : m ≡ buckets = some-injective m buckets (sym at ∙ t) in
      (
        [],
        us,
        refl,
        λ j. ap (find_entry_for j) (r ∙ ap get_map (sym same)) ∙ get_map_lem hasher m j valid ∙ f j,
      )

  copy-Reading :
      (n i : ℕ) (us : List (Update K V)) (buckets : List (List (K × V))) (res : List (K × V))
      (o : Option (List (K × V)))
      → 0 < n
      → updated hasher us (new n) ≡ some buckets
      → get_elem? buckets i ≡ o
      → insert_buckets (drop i buckets) res ≡ get_map buckets
      → Reading us buckets (copy_bucket i res o)
  unfolding insert_buckets
  copy-Reading n i us buckets res none h t g r =
      whole-IsSnapshot n us buckets res h t
        (sym (ap (λ bs. insert_buckets bs res) (drop_past buckets i g)) ∙ r)
  copy-Reading n i us buckets res (some b) h t g r =
      (sym (ap (λ bs. insert_buckets bs res) (drop_at buckets i b g)) ∙ r, tt)

  pub reader_step-Reading :
      (n : ℕ) (us : List (Update K V)) (buckets : List (List (K × V))) (r : Reader K V)
      → 0 < n
      → updated hasher us (new n) ≡ some buckets
      → Reading us buckets r
      → Reading us buckets (reader_step buckets r)
  unfolding reader_step get_map
  reader_step-Reading n us buckets (locks k) h t v = elim (Bool-cases (k == length buckets)) [
    | inl all ↦ rw all (refl, tt)
    | inr more ↦ rw more tt
  ]
  reader_step-Reading n us buckets (copies i res) h t v =
      copy-Reading n i us buckets res (get_elem? buckets i) h t refl v.0
  reader_step-Reading n us buckets (returned res) h t v = v

  copied-left :
      (n i : ℕ) (buckets : List (List (K × V))) (res : List (K × V)) (o : Option (List (K × V)))
      → length buckets ≡ n
      → get_elem? buckets i ≡ o
      → (left n (copy_bucket i res o) ≤ n - i) × InRange n (copy_bucket i res o)
  copied-left n i buckets res none z g = (omega arith, tt)
  copied-left n i buckets res (some b) z g = (omega (arith, z, in_of_get_elem? buckets i b g), tt)

  pub reader_step-left :
      (n : ℕ) (buckets : List (List (K × V))) (r : Reader K V)
      → length buckets ≡ n
      → InRange n r
      → (left n (reader_step buckets r) ≤ left n r - 1) × InRange n (reader_step buckets r)
  unfolding reader_step
  reader_step-left n buckets (locks k) z g = elim (Bool-cases (k == length buckets)) [
    | inl all ↦ rw all (omega arith, tt)
    | inr more ↦ rw more (ground (arith, more, z, g), ground (arith, more, z, g))
  ]
  reader_step-left n buckets (copies i res) z g =
      let c = copied-left n i buckets res (get_elem? buckets i) z refl in (omega (arith, c.0), c.1)
  reader_step-left n buckets (returned res) z g = (omega arith, tt)

  pub apply-length :
      (u : Update K V) (buckets b : List (List (K × V)))
      → apply hasher u buckets ≡ some b
      → length b ≡ length buckets
  unfolding apply add_or_update_for remove_for
  apply-length (adds k v) buckets b h = by_bucket (get_bucket hasher buckets k) h
    where
      by_bucket :
          (o : Option (ℕ × List (K × V)))
          → (elim o [ none ↦ none | some (i, c) ↦ some (set buckets i (add_to k v c)) ]) ≡ some b
          → length b ≡ length buckets
      by_bucket none f = absurd (cc)
      by_bucket (some (i, c)) f =
          ap length (sym (some-injective (set buckets i (add_to k v c)) b f))
          ∙ length-set buckets i (add_to k v c)
  apply-length (removes k) buckets b h = by_bucket (get_bucket hasher buckets k) h
    where
      by_bucket :
          (o : Option (ℕ × List (K × V)))
          → (elim o [ none ↦ none | some (i, c) ↦ some (set buckets i (remove_from k c)) ]) ≡ some b
          → length b ≡ length buckets
      by_bucket none f = absurd (cc)
      by_bucket (some (i, c)) f =
          ap length (sym (some-injective (set buckets i (remove_from k c)) b f))
          ∙ length-set buckets i (remove_from k c)
