-- ===== src/SafeMap/History.antt =====
-- A table over its updates, and the map that getMap returns.
use cxx.Common.{
  ℕ, zero, suc, ◌<◌, ◌≡◌, ◌≢◌, ◌∙◌, refl, sym, ap, Bool, true, false, Option, none, some, List, [],
  ◌∷◌, arith, length, get_elem?, if◌then◌else◌, Eq, ◌%◌, ◌⊎◌, inl, inr,
}
use cxx.SafeMap.{
  find_entry_for, insert, insert_all, insert_buckets, new, value_for, add_or_update_for, remove_for,
  get_map, or_default,
}
use cxx.SafeMap.Table.{
  IsValid, entry, find_in, new-IsValid, new-entry, added, removed, value_for_lem,
}

pub data Update {ℓ} (K V : Type ℓ) : Type ℓ where
  adds : K → V → Update K V
  removes : K → Update K V

abbrev first_of {ℓ} : {V : Type ℓ} → Option V → Option V → Option V
first_of none o = o
first_of (some v) o = some v

first_of-none {ℓ} : {V : Type ℓ} (o : Option V) → first_of o none ≡ o
first_of-none none = refl
first_of-none (some v) = refl

absent {ℓ} :
    {V : Type ℓ} (c : Bool) (a : Option V) (v : V)
    → (c ≡ true → a ≡ none)
    → (if c then some v else a) ≡ first_of a (if c then some v else none)
absent true a v h = ap (λ o. first_of o (some v)) (sym (h refl))
absent false a v h = sym (first_of-none a)

present {ℓ} :
    {V : Type ℓ} (c : Bool) (a : Option V) (w v : V)
    → (c ≡ true → a ≡ some w)
    → a ≡ first_of a (if c then some v else none)
present true a w v h = h refl ∙ ap (λ o. first_of o (some v)) (sym (h refl))
present false a w v h = sym (first_of-none a)

module _ {ℓ} {K V : Type ℓ} ⦃e : Eq K⦄ where
  -- The value that a key has after the updates, the last of them first.
  unfoldable pub last_value : List (Update K V) → K → Option V
  last_value [] j = none
  last_value (adds k v ∷ before) j = if e.beq k j then some v else last_value before j
  last_value (removes k ∷ before) j = if e.beq k j then none else last_value before j

  find-insert :
      (j : K) (k : K) (v : V) (m : List (K × V))
      → find_entry_for j (insert (k, v) m)
        ≡ first_of (find_entry_for j m) (if e.beq k j then some v else none)
  unfolding insert find_entry_for
  find-insert j k v m = elim (found (find_entry_for k m)) [
    | inl none_at ↦
        rw (none_at, insert) (absent (e.beq k j) (find_entry_for j m) v (λ y. same y ∙ none_at))
    | inr (w, at) ↦
        rw (at, insert) (present (e.beq k j) (find_entry_for j m) w v (λ y. same y ∙ at))
  ]
    where
      same : e.beq k j ≡ true → find_entry_for j m ≡ find_entry_for k m
      same y = ap (λ i. find_entry_for i m) (sym ((e.beq_iff k j).0 y))

      found : (o : Option V) → (o ≡ none) ⊎ ((w : V) × (o ≡ some w))
      found none = inl refl
      found (some w) = inr (w, refl)

  -- What a key has in the first of the buckets that has it.
  abbrev first_found : K → List (List (K × V)) → Option V
  first_found j [] = none
  first_found j (b ∷ bs) = first_of (find_entry_for j b) (first_found j bs)

  find-insert_all :
      (j : K) (ps m : List (K × V))
      → find_entry_for j (insert_all ps m) ≡ first_of (find_entry_for j m) (find_entry_for j ps)
  unfolding insert_all find_entry_for
  find-insert_all j [] m = unfold find_entry_for in sym (first_of-none (find_entry_for j m))
  find-insert_all j ((k, v) ∷ ps) m =
      find-insert_all j ps (insert (k, v) m)
      ∙ ap (λ o. first_of o (find_entry_for j ps)) (find-insert j k v m)
      ∙ by_test (e.beq k j) (find_entry_for j m) (find_entry_for j ps)
    where
      by_test :
          (c : Bool) (a b : Option V)
          → first_of (first_of a (if c then some v else none)) b
            ≡ first_of a (if c then some v else b)
      by_test true none b = refl
      by_test true (some w) b = refl
      by_test false none b = refl
      by_test false (some w) b = refl

  find-insert_buckets :
      (j : K) (bs : List (List (K × V))) (m : List (K × V))
      → find_entry_for j (insert_buckets bs m) ≡ first_of (find_entry_for j m) (first_found j bs)
  unfolding insert_buckets
  find-insert_buckets j [] m = sym (first_of-none (find_entry_for j m))
  find-insert_buckets j (b ∷ bs) m =
      find-insert_buckets j bs (insert_all b m)
      ∙ ap (λ o. first_of o (first_found j bs)) (find-insert_all j b m)
      ∙ assoc (find_entry_for j m) (find_entry_for j b) (first_found j bs)
    where
      assoc : (a b c : Option V) → first_of (first_of a b) c ≡ first_of a (first_of b c)
      assoc none b c = refl
      assoc (some v) b c = refl

  not_found :
      (j : K) (bs : List (List (K × V)))
      → ((i : ℕ) (b : List (K × V)) → get_elem? bs i ≡ some b → find_entry_for j b ≡ none)
      → first_found j bs ≡ none
  not_found j [] h = refl
  not_found j (b ∷ bs) h = rw (h 0 b refl) (not_found j bs (λ i c. h (suc i) c))

module _ {ℓ} {K V : Type ℓ} ⦃e : Eq K⦄ (hasher : K → ℕ) where
  -- A key that no bucket but one can have has what it has there.
  found_at :
      (j : K) (bs : List (List (K × V))) (t : ℕ)
      → ((i : ℕ) (b : List (K × V)) → get_elem? bs i ≡ some b → t ≢ i → find_entry_for j b ≡ none)
      → first_found j bs ≡ find_in hasher j (get_elem? bs t)
  found_at j [] t h = refl
  found_at j (b ∷ bs) zero h =
      ap (first_of (find_entry_for j b))
        (not_found j bs (λ i c at. h (suc i) c at (λ z. omega (arith, z))))
      ∙ first_of-none (find_entry_for j b)
  found_at j (b ∷ bs) (suc t) h =
      rw (h 0 b refl (λ z. omega (arith, z)))
        (found_at j bs t (λ i c at n. h (suc i) c at (λ z. n (omega (arith, z)))))

  -- The updates on a table, the last of them first.
  unfoldable pub updated : List (Update K V) → List (List (K × V)) → Option (List (List (K × V)))
  updated [] m = some m
  updated (adds k v ∷ before) m = elim (updated before m) [
    | none ↦ none
    | some m' ↦ add_or_update_for hasher m' k v
  ]
  updated (removes k ∷ before) m = elim (updated before m) [
    | none ↦ none
    | some m' ↦ remove_for hasher m' k
  ]

  -- A table that is valid and holds these values.
  abbrev pub Keeps : (K → Option V) → List (List (K × V)) → Type ℓ
  Keeps f m = IsValid hasher m × ((j : K) → entry hasher m j ≡ f j)

  pub updated-Keeps :
      (n : ℕ) (us : List (Update K V))
      → 0 < n
      → (m : List (List (K × V))) × (updated us (new n) ≡ some m) × Keeps (last_value us) m
  unfolding updated last_value
  updated-Keeps n [] h = (new n, refl, (new-IsValid hasher n h, λ j. new-entry hasher n j))
  updated-Keeps n (adds k v ∷ us) h =
      let (m, at, (valid, f)) = updated-Keeps n us h in
      let (m', to, valid', g) = added hasher m k v valid in
      (m', rw at to, (valid', λ j. g j ∙ ap (λ o. if e.beq k j then some v else o) (f j)))
  updated-Keeps n (removes k ∷ us) h =
      let (m, at, (valid, f)) = updated-Keeps n us h in
      let (m', to, valid', g) = removed hasher m k valid in
      (m', rw at to, (valid', λ j. g j ∙ ap (λ o. if e.beq k j then none else o) (f j)))

  pub get_map_lem :
      (m : List (List (K × V))) (j : K)
      → IsValid hasher m
      → find_entry_for j (get_map m) ≡ entry hasher m j
  unfolding get_map find_entry_for
  get_map_lem m j v =
      find-insert_buckets j m []
      ∙ found_at j m (hasher j % length m) (λ i b at n. v.placed i b j at n)

  -- After any updates of a new table of at least one bucket, a key has the value of the last of them
  -- that is for it, or the default if that is a removal or there is none; and the map that getMap
  -- returns holds the same values.
  pub history_lem :
      (n : ℕ) (us : List (Update K V)) (j : K) (d : V)
      → 0 < n
      → (m : List (List (K × V))) × (updated us (new n) ≡ some m)
        × (value_for hasher m j d ≡ some (or_default (last_value us j) d))
        × (find_entry_for j (get_map m) ≡ last_value us j)
  history_lem n us j d h =
      let (m, at, (valid, f)) = updated-Keeps n us h in
      (
        m,
        at,
        value_for_lem hasher m j d valid ∙ ap (λ o. some (or_default o d)) (f j),
        get_map_lem m j valid ∙ f j,
      )
