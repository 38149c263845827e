-- ===== src/SafeList/Chain.antt =====
-- Nodes that hold the elements of a list.
use cxx.Common.{
  ℕ, suc, ◌≤◌, ◌<◌, ◌≡◌, ◌≢◌, ◌∙◌, refl, sym, ap, subst, Option, none, some, List, [], ◌∷◌, ◌++◌,
  arith, length, get_elem?, set, get_elem?-set_ne, get_elem?-front, in_of_get_elem?,
}
use cxx.SafeList.{Node, Store, SafeList, new}

pub none_ne_some : (a : ℕ) → none ≢ some a
none_ne_some a e = cc

some_eq : (a b : ℕ) → some a ≡ some b → a ≡ b
some_eq a b e = cc

module _ {ℓ} {T : Type ℓ} where
  -- The node with an element, and with a pointer.
  abbrev pub link : T → Option ℕ → Node T
  link x q = record { value = some x; next = q }

  abbrev pub head_node : Option ℕ → Node T
  head_node q = record { value = none; next = q }

  abbrev pub Is : Store T → ℕ → Node T → Type ℓ
  Is nodes a n = get_elem? nodes a ≡ some (some n)

  -- The nodes from `a` on hold the elements, and the last of them is `t`.
  pub data Chain (nodes : Store T) : ℕ → List T → ℕ → Type ℓ where
    one : (a : ℕ) (x : T) → Is nodes a (link x none) → Chain nodes a (x ∷ []) a
    more :
        (a b t : ℕ) (x : T) (xs : List T)
        → Is nodes a (link x (some b))
        → Chain nodes b xs t
        → Chain nodes a (x ∷ xs) t

  -- The list holds the elements. While it has none, `tail_` is not initialised.
  pub data Holds (l : SafeList T) : List T → Type ℓ where
    nothing : Is l.nodes l.head (head_node none) → l.tail ≡ none → Holds l []
    something :
        (a t : ℕ) (xs : List T)
        → Is l.nodes l.head (head_node (some a))
        → Chain l.nodes a xs t
        → l.tail ≡ some t
        → Holds l xs

  -- A new list is empty.
  pub new-Holds : Holds new []
  unfolding new
  new-Holds = nothing refl refl

  -- No node of a chain with at most this many elements is at `c`.
  abbrev pub Apart : Store T → ℕ → ℕ → ℕ → Type ℓ
  Apart nodes c t n = (b : ℕ) (ys : List T) → Chain nodes b ys t → length ys ≤ n → c ≢ b

  -- A change of the store at `c` keeps a chain that does not come to `c`.
  pub Chain-set :
      (nodes : Store T) (c : ℕ) (v : Option (Node T)) (a t : ℕ) (xs : List T)
      → Chain nodes a xs t
      → Apart nodes c t (length xs)
      → Chain (set nodes c v) a xs t
  Chain-set nodes c v _ _ _ (one a x e) apart =
      one a x (get_elem?-set_ne nodes c a v (apart a (x ∷ []) (one a x e) (omega arith)) ∙ e)
  Chain-set nodes c v _ _ _ (more a b t x xs e r) apart =
      more a b t x xs
        (get_elem?-set_ne nodes c a v (apart a (x ∷ xs) (more a b t x xs e r) (omega arith)) ∙ e)
        (Chain-set nodes c v b t xs r (λ d ys s l. apart d ys s (omega (arith, l))))

  pub Is-append :
      (nodes new_nodes : Store T) (a : ℕ) (n : Node T) → Is nodes a n → Is (nodes ++ new_nodes) a n
  Is-append nodes new_nodes a n e =
      get_elem?-front nodes new_nodes a (in_of_get_elem? nodes a (some n) e) ∙ e

  pub Chain-append :
      (nodes new_nodes : Store T) (a t : ℕ) (xs : List T)
      → Chain nodes a xs t
      → Chain (nodes ++ new_nodes) a xs t
  Chain-append nodes new_nodes _ _ _ (one a x e) =
      one a x (Is-append nodes new_nodes a (link x none) e)
  Chain-append nodes new_nodes _ _ _ (more a b t x xs e r) =
      more a b t x xs (Is-append nodes new_nodes a (link x (some b)) e)
        (Chain-append nodes new_nodes b t xs r)

  pub head-ne :
      (nodes : Store T) (c b : ℕ) (p q : Option ℕ) (x : T)
      → Is nodes c (head_node q)
      → Is nodes b (link x p)
      → c ≢ b
  head-ne nodes c b p q x h e s = differ (sym h ∙ ap (get_elem? nodes) s ∙ e)
    where
      differ : some (some (head_node q)) ≢ some (some (link x p))
      differ d = cc

  -- The head node is in no chain.
  pub head-Apart :
      (nodes : Store T) (c t n : ℕ) (q : Option ℕ) → Is nodes c (head_node q) → Apart nodes c t n
  head-Apart nodes c t n q h _ _ (one a x e) l = head-ne nodes c a none q x h e
  head-Apart nodes c t n q h _ _ (more a b _ x xs e r) l = head-ne nodes c a (some b) q x h e

  pub same_next :
      (nodes : Store T) (a : ℕ) (x y : T) (p q : Option ℕ)
      → Is nodes a (link x p)
      → Is nodes a (link y q)
      → p ≡ q
  same_next nodes a x y p q e f = next_of (sym e ∙ f)
    where
      next_of : some (some (link x p)) ≡ some (some (link y q)) → p ≡ q
      next_of d = cc

  -- The chains from one address have one length.
  Chain_unique :
      (nodes : Store T) (a t u : ℕ) (xs ys : List T)
      → Chain nodes a xs t
      → Chain nodes a ys u
      → length xs ≡ length ys
  Chain_unique nodes _ _ _ _ _ (one a x e) (one _ y f) = refl
  Chain_unique nodes _ _ _ _ _ (one a x e) (more _ b u y ys f s) =
      absurd (none_ne_some b (same_next nodes a x y none (some b) e f))
  Chain_unique nodes _ _ _ _ _ (more a b t x xs e r) (one _ y f) =
      absurd (none_ne_some b (same_next nodes a y x none (some b) f e))
  Chain_unique nodes _ _ _ _ _ (more a b t x xs e r) (more _ c u y ys f s) =
      let same : b ≡ c = some_eq b c (same_next nodes a x y (some b) (some c) e f) in
      ap suc (Chain_unique nodes b t u xs ys r (subst (λ d. Chain nodes d ys u) (sym same) s))

  -- A node is in no chain that is shorter than its own.
  pub Chain-Apart :
      (nodes : Store T) (a t : ℕ) (xs : List T) (n : ℕ)
      → Chain nodes a xs t
      → n < length xs
      → Apart nodes a t n
  Chain-Apart nodes a t xs n c l b ys d h e =
      omega (arith, l, h, Chain_unique nodes b t t xs ys (subst (λ i. Chain nodes i xs t) e c) d)
