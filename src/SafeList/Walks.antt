-- ===== src/SafeList/Walks.antt =====
-- What the walks that only read see of the elements.
use cxx.Common.{
  ℕ, zero, suc, ◌<◌, ◌≡◌, refl, Bool, true, false, Option, none, some, List, [], ◌∷◌, arith, length,
  if◌then◌else◌,
}
use cxx.SafeList.{Node, Store, SafeList, Run, ok, visit, for_each, find_from, find_first_if}
use cxx.SafeList.Chain.{link, head_node, Is, Chain, one, more, Holds, nothing, something}

-- The first element with the property
abbrev pub first_with {ℓ} : {T : Type ℓ} → (T → Bool) → List T → Option T
first_with p [] = none
first_with p (x ∷ xs) = if p x then some x else first_with p xs

module _ {ℓ} {T : Type ℓ} where
  -- What is behind a node: nothing, or a node with an element and what is behind that.
  pub data Behind (nodes : Store T) : ℕ → List T → Type ℓ where
    end : (c : ℕ) (n : Node T) → Is nodes c n → n.next ≡ none → Behind nodes c []
    next :
        (c a : ℕ) (n : Node T) (x : T) (q : Option ℕ) (xs : List T)
        → Is nodes c n
        → n.next ≡ some a
        → Is nodes a (link x q)
        → Behind nodes a xs
        → Behind nodes c (x ∷ xs)

  -- A node that leads to a chain.
  pub Chain-Behind :
      (nodes : Store T) (c a t : ℕ) (n : Node T) (xs : List T)
      → Is nodes c n
      → n.next ≡ some a
      → Chain nodes a xs t
      → Behind nodes c xs
  Chain-Behind nodes c _ _ n _ h p (one a x e) =
      next c a n x none [] h p e (end a (link x none) e refl)
  Chain-Behind nodes c _ _ n _ h p (more a b t x xs e r) =
      next c a n x (some b) xs h p e (Chain-Behind nodes a b t (link x (some b)) xs e refl r)

  Behind-head : (l : SafeList T) (xs : List T) → Holds l xs → Behind l.nodes l.head xs
  Behind-head l _ (nothing h e) = end l.head (head_node none) h refl
  Behind-head l _ (something a t xs h c e) =
      Chain-Behind l.nodes l.head a t (head_node (some a)) xs h refl c

  visit_lem :
      (fuel : ℕ) (nodes : Store T) (c : ℕ) (xs : List T)
      → length xs < fuel
      → Behind nodes c xs
      → visit fuel nodes c ≡ ok xs
  unfolding visit
  visit_lem zero nodes c xs l b = absurd (omega arith)
  visit_lem (suc fuel) nodes _ _ l (end c n e p) = rw (e, visit) (rw p)
  visit_lem (suc fuel) nodes _ _ l (next c a n x q xs e p at b) =
      rw (e, visit) (rw p (rw at (rw (visit_lem fuel nodes a xs (omega (arith, l)) b))))

  -- forEach calls its function on the elements in order, each once.
  pub for_each-Holds :
      (fuel : ℕ) (l : SafeList T) (xs : List T)
      → length xs < fuel
      → Holds l xs
      → for_each fuel l ≡ ok xs
  unfolding for_each
  for_each-Holds fuel l xs b h = visit_lem fuel l.nodes l.head xs b (Behind-head l xs h)

  find_from_lem :
      (fuel : ℕ) (p : T → Bool) (nodes : Store T) (c : ℕ) (xs : List T)
      → length xs < fuel
      → Behind nodes c xs
      → find_from fuel p nodes c ≡ ok (first_with p xs)
  unfolding find_from
  find_from_lem zero p nodes c xs l b = absurd (omega arith)
  find_from_lem (suc fuel) p nodes _ _ l (end c n e h) = rw (e, find_from) (rw h)
  find_from_lem (suc fuel) p nodes _ _ l (next c a n x q xs e h at b) =
      let rest = find_from_lem fuel p nodes a xs (omega (arith, l)) b in
      rw (e, find_from)
        (rw h (rw at (by_test (p x) x (find_from fuel p nodes a) (first_with p xs) rest)))
    where
      by_test :
          (t : Bool) (y : T) (r : Run (Option T)) (o : Option T)
          → r ≡ ok o
          → (if t then ok (some y) else r) ≡ ok (if t then some y else o)
      by_test true y r o i = refl
      by_test false y r o i = i

  -- The two walks that change nothing: forEach calls its function on the elements in order, each
  -- once, and findFirstIf finds the first element with the property, if there is one. Any fuel above
  -- the number of the elements is enough.
  pub walks-Holds :
      (fuel : ℕ) (p : T → Bool) (l : SafeList T) (xs : List T)
      → length xs < fuel
      → Holds l xs
      → (for_each fuel l ≡ ok xs) × (find_first_if fuel p l ≡ ok (first_with p xs))
  unfolding find_first_if
  walks-Holds fuel p l xs b h =
      (for_each-Holds fuel l xs b h, find_from_lem fuel p l.nodes l.head xs b (Behind-head l xs h))
