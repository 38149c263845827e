-- ===== src/SafeMap/Table.antt =====
-- The whole table as a map from keys to values.
use native.Mathlib.Nat.{mod-lt}
use cxx.Common.{
  if-false, in_of_get_elem?, ℕ, zero, suc, ◌%◌, ◌<◌, ◌≡◌, ◌≢◌, ◌∙◌, refl, sym, ap, subst, true,
  false, Option, none, some, List, [], ◌∷◌, arith, length, get_elem?, set, length-set,
  get_elem?-set_self, get_elem?-set_ne, if◌then◌else◌, Eq, ◌==◌, replicate, length-replicate,
  ℕ_discrete, Bool-cases, inl, inr,
}
use cxx.SafeMap.{
  find_entry_for, add_to, remove_from, new, get_bucket, or_default, value_for, add_or_update_for,
  remove_for,
}
use cxx.SafeMap.Bucket.{
  Distinct, find-add_to, find-remove_from, add_to-Distinct, remove_from-Distinct,
}

same_some {κ} : {A : Type κ} {o : Option A} {a b : A} → o ≡ some a → o ≡ some b → a ≡ b
same_some p q = cc

get_elem?_in {κ} :
    {A : Type κ} (xs : List A) (i : ℕ) → i < length xs → (a : A) × (get_elem? xs i ≡ some a)
get_elem?_in [] i h = absurd (omega arith)
get_elem?_in (x ∷ xs) zero h = (x, refl)
get_elem?_in (x ∷ xs) (suc i) h = get_elem?_in xs i (omega arith)

module _ {ℓ} {K V : Type ℓ} ⦃e : Eq K⦄ (hasher : K → ℕ) where
  -- There is a bucket, and each key is at most once in the table, in the bucket of its hash.
  pub record IsValid (buckets : List (List (K × V))) : Type ℓ where
    pub some_bucket : 0 < length buckets
    pub distinct : (i : ℕ) (b : List (K × V)) → get_elem? buckets i ≡ some b → Distinct b
    pub placed :
        (i : ℕ) (b : List (K × V)) (k : K)
        → get_elem? buckets i ≡ some b
        → hasher k % length buckets ≢ i
        → find_entry_for k b ≡ none

  abbrev pub find_in : K → Option (List (K × V)) → Option V
  find_in k none = none
  find_in k (some b) = find_entry_for k b

  -- The value of a key, if it has one.
  abbrev pub entry : List (List (K × V)) → K → Option V
  entry buckets k = find_in k (get_elem? buckets (hasher k % length buckets))

  abbrev slot : List (List (K × V)) → K → ℕ
  slot m k = hasher k % length m

  -- A bucket that answers as `b`, but for the key `k`.
  abbrev Changes : K → Option V → List (K × V) → List (K × V) → Type ℓ
  Changes k r b b' = (j : K) → find_entry_for j b' ≡ (if e.beq k j then r else find_entry_for j b)

  replaced-IsValid :
      (m : List (List (K × V))) (k : K) (r : Option V) (b b' : List (K × V))
      → IsValid m
      → get_elem? m (slot m k) ≡ some b
      → Distinct b'
      → Changes k r b b'
      → IsValid (set m (slot m k) b')
  replaced-IsValid m k r b b' v at d c = record {
    some_bucket = omega (arith, v.some_bucket, size);
    distinct = λ i b'' h. distinct i b'' h;
    placed = λ i b'' j h n. placed i b'' j h (λ q. n (ap (λ t. hasher j % t) size ∙ q));
  }
    where
      size : length (set m (slot m k) b') ≡ length m
      size = length-set m (slot m k) b'

      here : get_elem? (set m (slot m k) b') (slot m k) ≡ some b'
      here = get_elem?-set_self m (slot m k) b' (in_of_get_elem? m (slot m k) b at)

      distinct :
          (i : ℕ) (b'' : List (K × V)) → get_elem? (set m (slot m k) b') i ≡ some b'' → Distinct b''
      distinct i b'' h = elim (ℕ_discrete (slot m k) i) [
        | yes p ↦ subst Distinct (same_some here (ap (get_elem? (set m (slot m k) b')) p ∙ h)) d
        | no n ↦ v.distinct i b'' (sym (get_elem?-set_ne m (slot m k) i b' n) ∙ h)
      ]

      other : (j : K) → slot m j ≢ slot m k → find_entry_for j b' ≡ none
      other j n = elim (Bool-cases (e.beq k j)) [
        | inl y ↦ absurd (n (ap (slot m) (sym ((e.beq_iff k j).0 y))))
        | inr f ↦ c j ∙ if-false (e.beq k j) r (find_entry_for j b) f ∙ v.placed (slot m k) b j at n
      ]

      placed :
          (i : ℕ) (b'' : List (K × V)) (j : K)
          → get_elem? (set m (slot m k) b') i ≡ some b''
          → slot m j ≢ i
          → find_entry_for j b'' ≡ none
      placed i b'' j h n = elim (ℕ_discrete (slot m k) i) [
        | yes p ↦
            subst (λ t. find_entry_for j t ≡ none)
              (same_some here (ap (get_elem? (set m (slot m k) b')) p ∙ h))
              (other j (λ q. n (q ∙ p)))
        | no o ↦ v.placed i b'' j (sym (get_elem?-set_ne m (slot m k) i b' o) ∙ h) n
      ]

  replaced-entry :
      (m : List (List (K × V))) (k j : K) (r : Option V) (b b' : List (K × V))
      → get_elem? m (slot m k) ≡ some b
      → Changes k r b b'
      → entry (set m (slot m k) b') j ≡ (if e.beq k j then r else entry m j)
  replaced-entry m k j r b b' at c =
      let here = get_elem?-set_self m (slot m k) b' (in_of_get_elem? m (slot m k) b at) in
      ap (λ t. find_in j (get_elem? (set m (slot m k) b') (hasher j % t)))
        (length-set m (slot m k) b')
      ∙ elim (ℕ_discrete (slot m k) (slot m j)) [
        | yes p ↦
            ap (λ t. find_in j (get_elem? (set m (slot m k) b') t)) (sym p)
            ∙ ap (find_in j) here
            ∙ c j
            ∙ ap (λ o. if e.beq k j then r else find_in j o) (sym at ∙ ap (get_elem? m) p)
        | no n ↦
            ap (find_in j) (get_elem?-set_ne m (slot m k) (slot m j) b' n)
            ∙ sym (
                if-false (e.beq k j) r (entry m j)
                  (ground (arith, λ (y : e.beq k j ≡ true). n (ap (slot m) ((e.beq_iff k j).0 y)))))
      ]

  get_bucket_lem :
      (m : List (List (K × V))) (k : K)
      → IsValid m
      → (b : List (K × V)) × (get_elem? m (slot m k) ≡ some b)
        × (get_bucket hasher m k ≡ some (slot m k, b))
  get_bucket_lem m k v =
      let full : (length m == 0) ≡ false = ground (arith, v.some_bucket) in
      let (b, at) = get_elem?_in m (slot m k) (mod-lt (hasher k) {m = length m} v.some_bucket) in
      (b, at, rw (full, at, get_bucket) refl)

  pub value_for_lem :
      (m : List (List (K × V))) (k : K) (d : V)
      → IsValid m
      → value_for hasher m k d ≡ some (or_default (entry m k) d)
  unfolding value_for
  value_for_lem m k d v =
      let (b, at, found) = get_bucket_lem m k v in
      rw (found, value_for) (ap (λ o. some (or_default (find_in k o) d)) (sym at))

  replicate_lem :
      (n i : ℕ) (b : List (K × V))
      → get_elem? (replicate {A = List (K × V)} n []) i ≡ some b
      → b ≡ []
  replicate_lem zero i b h = cc
  replicate_lem (suc n) zero b h = cc
  replicate_lem (suc n) (suc i) b h = replicate_lem n i b h

  empty_entry :
      (k : K) (o : Option (List (K × V)))
      → ((b : List (K × V)) → o ≡ some b → b ≡ [])
      → find_in k o ≡ none
  empty_entry k none h = refl
  empty_entry k (some b) h =
      subst (λ t. find_entry_for k t ≡ none) (sym (h b refl)) (unfold find_entry_for in refl)

  pub new-IsValid : (n : ℕ) → 0 < n → IsValid (new {K = K} {V = V} n)
  unfolding new
  new-IsValid n h = record {
    some_bucket = omega (arith, length-replicate {A = List (K × V)} n [], h);
    distinct = λ i b at. subst Distinct (sym (replicate_lem n i b at)) tt;
    placed = λ i b k at ne.
        subst (λ t. find_entry_for k t ≡ none) (sym (replicate_lem n i b at))
          (unfold find_entry_for in refl);
  }

  pub new-entry : (n : ℕ) (j : K) → entry (new {K = K} {V = V} n) j ≡ none
  unfolding new
  new-entry n j =
      empty_entry j (get_elem? (new n) (slot (new n) j))
        (λ b at. replicate_lem n (slot (new n) j) b at)

  -- An update of a valid table
  pub added :
      (m : List (List (K × V))) (k : K) (x : V)
      → IsValid m
      → (m' : List (List (K × V))) × (add_or_update_for hasher m k x ≡ some m')
        × IsValid m'
        × ((j : K) → entry m' j ≡ (if e.beq k j then some x else entry m j))
  unfolding add_or_update_for
  added m k x v =
      let (b, at, found) = get_bucket_lem m k v in
      let c = λ (i : K). find-add_to i k x b in
      (
        set m (slot m k) (add_to k x b),
        rw (found, add_or_update_for) refl,
        replaced-IsValid m k (some x) b (add_to k x b) v at
            (add_to-Distinct k x b (v.distinct (slot m k) b at)) c,
        λ j. replaced-entry m k j (some x) b (add_to k x b) at c,
      )

  -- A removal from a valid table
  pub removed :
      (m : List (List (K × V))) (k : K)
      → IsValid m
      → (m' : List (List (K × V))) × (remove_for hasher m k ≡ some m')
        × IsValid m'
        × ((j : K) → entry m' j ≡ (if e.beq k j then none else entry m j))
  unfolding remove_for
  removed m k v =
      let (b, at, found) = get_bucket_lem m k v in
      let distinct = v.distinct (slot m k) b at in
      let c = λ (i : K). find-remove_from i k b distinct in
      (
        set m (slot m k) (remove_from k b),
        rw (found, remove_for) refl,
        replaced-IsValid m k none b (remove_from k b) v at (remove_from-Distinct k b distinct) c,
        λ j. replaced-entry m k j none b (remove_from k b) at c,
      )
