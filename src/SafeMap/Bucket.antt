-- ===== src/SafeMap/Bucket.antt =====
-- One bucket: what it holds after an update and after a removal.
use cxx.Common.{◌≡◌, refl, none, some, List, [], ◌∷◌, arith, if◌then◌else◌, Eq}
use cxx.SafeMap.{find_entry_for, add_to, remove_from}

module _ {ℓ} {K V : Type ℓ} ⦃e : Eq K⦄ where
  -- No key occurs twice.
  abbrev pub Distinct : List (K × V) → Type ℓ
  Distinct [] = Unit
  Distinct ((k, v) ∷ rest) = (find_entry_for k rest ≡ none) × Distinct rest

  pub find-add_to :
      (j k : K) (v : V) (b : List (K × V))
      → find_entry_for j (add_to k v b) ≡ (if e.beq k j then some v else find_entry_for j b)
  unfolding find_entry_for add_to
  find-add_to j k v [] = refl
  find-add_to j k v ((i, w) ∷ b) =
      ground (arith, e.beq_iff k j, e.beq_iff i k, e.beq_iff i j, find-add_to j k v b)

  pub find-remove_from :
      (j k : K) (b : List (K × V))
      → Distinct b
      → find_entry_for j (remove_from k b) ≡ (if e.beq k j then none else find_entry_for j b)
  unfolding find_entry_for remove_from
  find-remove_from j k [] d = ground arith
  find-remove_from j k ((i, w) ∷ b) d =
      ground (arith, e.beq_iff k j, e.beq_iff i k, e.beq_iff i j, find-remove_from j k b d.1)

  pub add_to-Distinct : (k : K) (v : V) (b : List (K × V)) → Distinct b → Distinct (add_to k v b)
  unfolding add_to
  add_to-Distinct k v [] d = (unfold find_entry_for in refl, tt)
  add_to-Distinct k v ((i, w) ∷ b) d =
      ground (arith, e.beq_iff i k, e.beq_iff k i, find-add_to i k v b, add_to-Distinct k v b d.1)

  pub remove_from-Distinct : (k : K) (b : List (K × V)) → Distinct b → Distinct (remove_from k b)
  unfolding remove_from
  remove_from-Distinct k [] d = d
  remove_from-Distinct k ((i, w) ∷ b) d =
      ground (arith, e.beq_iff i k, find-remove_from i k b d.1, remove_from-Distinct k b d.1)
