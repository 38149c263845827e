-- ===== src/SafeList/Removals.antt =====
-- What the removals do.
use cxx.Common.{
  ℕ, zero, suc, ◌≤◌, ◌<◌, ◌≡◌, ◌∙◌, refl, ap, Bool, true, false, ◌||◌, Option, none, some, List, [],
  ◌∷◌, arith, length, get_elem?, set, length-set, get_elem?-set_self, in_of_get_elem?,
  if◌then◌else◌,
}
use cxx.SafeList.{Node, Store, SafeList, Run, ok, fault, load, live, destroy, reset_next, ◌>>=◌}
use cxx.SafeList.Remove.{remove_from, remove_if, remove_first_from, remove_first_if}
use cxx.SafeList.Chain.{
  link, head_node, Is, Chain, one, more, Holds, nothing, something, Apart, Chain-set, Chain-Apart,
  head-Apart,
}

-- Whether an element has the property
abbrev pub any_with {ℓ} : {T : Type ℓ} → (T → Bool) → List T → Bool
any_with p [] = false
any_with p (x ∷ xs) = p x || any_with p xs

by_test {κ} :
    {A : Type κ} (t s : Bool) (rest : Run A) (o : A)
    → rest ≡ (if s then fault else ok o)
    → (if t then fault else rest) ≡ (if t || s then fault else ok o)
by_test true s rest o r = refl
by_test false s rest o r = r

by_fault {κ} :
    {A : Type κ} (t s : Bool) (first rest : Run A) (o : A)
    → first ≡ fault
    → rest ≡ (if s then fault else ok o)
    → (if t then first else rest) ≡ (if t || s then fault else ok o)
by_fault true s first rest o f r = f
by_fault false s first rest o f r = r

-- What follows a result that depends on a test
after_test {κ κ'} :
    {A : Type κ} {B : Type κ'} (s : Bool) (r : Run A) (a : A) (k : A → Run B)
    → r ≡ (if s then fault else ok a)
    → (r >>= k) ≡ (if s then fault else k a)
after_test true r a k e = ap (λ i. i >>= k) e
after_test false r a k e = ap (λ i. i >>= k) e

module _ {ℓ} {T : Type ℓ} where
  after_load {κ} :
      {B : Type κ} (o : Option (Option (Node T))) → ◌>>=◌ {B = B} (live o) (λ n. fault) ≡ fault
  after_load none = refl
  after_load (some none) = refl
  after_load (some (some n)) = refl

  -- An access to a freed node, after one to another node
  unlock_lem {κ} :
      {B : Type κ} (left : Store T) (c a : ℕ)
      → get_elem? left a ≡ some none
      → (f : Node T → Node T → Run B) → (load left c >>= λ n. (load left a >>= λ u. f n u)) ≡ fault
  unlock_lem left c a e f = rw e (after_load (get_elem? left c))

  -- A store in which the node at `a` has been freed.
  record Freed (nodes : Store T) (a : ℕ) (left : Store T) : Type ℓ where
    size : length left ≡ length nodes
    freed : get_elem? left a ≡ some none

  destroy_lem :
      (fuel : ℕ) (nodes : Store T) (a t : ℕ) (xs : List T)
      → length xs ≤ fuel
      → Chain nodes a xs t
      → (left : Store T) × (destroy fuel nodes (some a) ≡ ok left) × Freed nodes a left
  unfolding destroy
  destroy_lem zero nodes _ _ _ l (one a x e) = absurd (omega arith)
  destroy_lem zero nodes _ _ _ l (more a b t x xs e r) = absurd (omega arith)
  destroy_lem (suc fuel) nodes _ _ _ l (one a x e) = (
    set nodes a none,
    rw (e, destroy),
    record {
      size = length-set nodes a none;
      freed = get_elem?-set_self nodes a none (in_of_get_elem? nodes a (some (link x none)) e);
    },
  )
  destroy_lem (suc fuel) nodes _ _ _ l (more a b t x xs e r) =
      let (left, d, f) = destroy_lem fuel nodes b t xs (omega (arith, l)) r in
      (
        set left a none,
        rw (e, destroy) (rw d),
        record {
          size = length-set left a none ∙ f.size;
          freed =
              get_elem?-set_self left a none
                (omega (arith, f.size, in_of_get_elem? nodes a (some (link x (some b))) e));
        },
      )

  -- The reset in a removal destroys the node that is removed.
  reset_lem :
      (k : ℕ) (nodes : Store T) (c a t : ℕ) (n : Node T) (q : Option ℕ) (xs : List T)
      → Is nodes c n
      → n.next ≡ some a
      → Chain nodes a xs t
      → Apart nodes c t (length xs)
      → length xs ≤ k
      → (left : Store T) × (reset_next k nodes c q ≡ ok left) × (get_elem? left a ≡ some none)
  unfolding reset_next
  reset_lem k nodes c a t n q xs h p r apart l =
      let kept = Chain-set nodes c (some (record { value = n.value; next = q })) a t xs r apart in
      let (left, d, f) =
        destroy_lem k (set nodes c (some (record { value = n.value; next = q }))) a t xs l kept in
      (left, rw (h, reset_next) (rw p d), f.freed)

  remove_from_lem :
      (fuel k : ℕ) (p : T → Bool) (nodes : Store T) (tail : Option ℕ) (c a t : ℕ) (n : Node T)
      (xs : List T)
      → Is nodes c n
      → n.next ≡ some a
      → Chain nodes a xs t
      → Apart nodes c t (length xs)
      → length xs < fuel
      → length xs ≤ k
      → remove_from fuel k p nodes tail c ≡ (if any_with p xs then fault else ok (nodes, tail))
  unfolding remove_from
  remove_from_lem zero k p nodes tail c _ _ n _ h e r apart l l' = absurd (omega arith)
  remove_from_lem (suc zero) k p nodes tail c _ _ n _ h e (one a x i) apart l l' =
      absurd (omega arith)
  remove_from_lem (suc (suc fuel)) k p nodes tail c _ _ n _ h e (one a x i) apart l l' =
      let (left, d, f) = reset_lem k nodes c a a n none (x ∷ []) h e (one a x i) apart l' in
      rw (h, remove_from)
        (rw e (rw i (rw d (rw f (by_test (p x) false (ok (nodes, tail)) (nodes, tail) refl)))))
  remove_from_lem (suc fuel) k p nodes tail c _ _ n _ h e (more a b t x xs i r) apart l l' =
      let (left, d, f) =
        reset_lem k nodes c a t n (some b) (x ∷ xs) h e (more a b t x xs i r) apart l' in
      let rest =
        remove_from_lem fuel k p nodes tail a b t (link x (some b)) xs i refl r
          (Chain-Apart nodes a t (x ∷ xs) (length xs) (more a b t x xs i r) (omega arith))
          (omega (arith, l)) (omega (arith, l')) in
      rw (h, remove_from)
        (rw e (
          rw i (
            rw d (
              rw f (
                by_test (p x) (any_with p xs) (remove_from fuel k p nodes tail a) (nodes, tail)
                  rest)))))

  first_from_lem :
      (fuel k : ℕ) (p : T → Bool) (l : SafeList T) (c a t : ℕ) (n : Node T) (xs : List T)
      → Is l.nodes c n
      → n.next ≡ some a
      → Chain l.nodes a xs t
      → Apart l.nodes c t (length xs)
      → length xs < fuel
      → length xs ≤ k
      → remove_first_from fuel k p l c ≡ (if any_with p xs then fault else ok (false, l))
  unfolding remove_first_from
  first_from_lem zero k p l c _ _ n _ h e r apart b b' = absurd (omega arith)
  first_from_lem (suc zero) k p l c _ _ n _ h e (one a x i) apart b b' = absurd (omega arith)
  first_from_lem (suc (suc fuel)) k p l c _ _ n _ h e (one a x i) apart b b' =
      let (left, d, f) = reset_lem k l.nodes c a a n none (x ∷ []) h e (one a x i) apart b' in
      rw (h, remove_first_from)
        (rw e (
          rw i (
            rw d
              (by_fault (p x) false _ (ok (false, l)) (false, l) (unlock_lem left c a f _) refl))))
  first_from_lem (suc fuel) k p l c _ _ n _ h e (more a b t x xs i r) apart m m' =
      let (left, d, f) =
        reset_lem k l.nodes c a t n (some b) (x ∷ xs) h e (more a b t x xs i r) apart m' in
      let rest =
        first_from_lem fuel k p l a b t (link x (some b)) xs i refl r
          (Chain-Apart l.nodes a t (x ∷ xs) (length xs) (more a b t x xs i r) (omega arith))
          (omega (arith, m)) (omega (arith, m')) in
      rw (h, remove_first_from)
        (rw e (
          rw i (
            rw d (
              by_fault (p x) (any_with p xs) _ (remove_first_from fuel k p l a) (false, l)
                (unlock_lem left c a f _) rest))))

  -- removeIf and removeFirstIf return only where no element has the property, and then change
  -- nothing. Where one has it, they destroy its node while they hold the lock in it, and then unlock
  -- it: an access to freed memory, whatever the fuel above the number of elements.
  pub removals-Holds :
      (fuel k : ℕ) (p : T → Bool) (l : SafeList T) (xs : List T)
      → length xs < fuel
      → length xs ≤ k
      → Holds l xs
      → (remove_if fuel k p l ≡ (if any_with p xs then fault else ok l))
        × (remove_first_if fuel k p l ≡ (if any_with p xs then fault else ok (false, l)))
  unfolding remove_if remove_first_if remove_from remove_first_from
  removals-Holds zero k p l xs b b' h = absurd (omega arith)
  removals-Holds (suc fuel) k p l _ b b' (nothing h e) =
      (rw (h, remove_from) refl, rw (h, remove_first_from) refl)
  removals-Holds (suc fuel) k p l _ b b' (something a t xs h c e) =
      let apart = head-Apart l.nodes l.head t (length xs) (some a) h in
      (
        after_test (any_with p xs) _ (l.nodes, l.tail) _
            (remove_from_lem (suc fuel) k p l.nodes l.tail l.head a t (head_node (some a)) xs h refl
              c apart b b'),
        first_from_lem (suc fuel) k p l l.head a t (head_node (some a)) xs h refl c apart b b',
      )
