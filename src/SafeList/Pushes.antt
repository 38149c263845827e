-- ===== src/SafeList/Pushes.antt =====
-- What the pushes do to the elements.
use cxx.Common.{
  ℕ, ◌≡◌, ◌≢◌, ◌∙◌, refl, sym, ap, subst, Option, none, some, List, [], ◌∷◌, ◌++◌, arith, length,
  get_elem?, set, get_elem?-set_self, get_elem?-set_ne, length-set, length-append, get_elem?-back,
  in_of_get_elem?,
}
use cxx.SafeList.{
  Node, Store, SafeList, ok, fault, tail_if_null, push_front, push_back, reset_next, destroy,
}
use cxx.SafeList.Chain.{
  link, head_node, Is, Chain, one, more, Holds, nothing, something, Is-append, Chain-append,
  Chain-set, head-Apart, same_next, head-ne, none_ne_some,
}

module _ {ℓ} {T : Type ℓ} where
  -- The list after a push at the front
  fronted : SafeList T → T → Option ℕ → SafeList T
  fronted l x q = record {
    nodes = set l.nodes l.head (some (head_node (some (length l.nodes)))) ++ some (link x q) ∷ [];
    head = l.head;
    tail = tail_if_null q (length l.nodes) l.tail;
  }

  push_front_at :
      (l : SafeList T) (x : T) (q : Option ℕ)
      → Is l.nodes l.head (head_node q)
      → push_front x l ≡ ok (fronted l x q)
  unfolding push_front fronted
  push_front_at l x q h = rw (h, push_front)

  module _ (l : SafeList T) (x : T) (q : Option ℕ) (h : Is l.nodes l.head (head_node q)) where
    fronted_head : Is (fronted l x q).nodes l.head (head_node (some (length l.nodes)))
    unfolding fronted
    fronted_head =
        Is-append (set l.nodes l.head (some (head_node (some (length l.nodes)))))
          (some (link x q) ∷ []) l.head (head_node (some (length l.nodes)))
          (get_elem?-set_self l.nodes l.head (some (head_node (some (length l.nodes))))
            (in_of_get_elem? l.nodes l.head (some (head_node q)) h))

    fronted_new : Is (fronted l x q).nodes (length l.nodes) (link x q)
    unfolding fronted
    fronted_new =
        ap
          (get_elem?
            (set l.nodes l.head (some (head_node (some (length l.nodes)))) ++ some (link x q) ∷ []))
          (sym (length-set l.nodes l.head (some (head_node (some (length l.nodes))))))
        ∙ get_elem?-back (set l.nodes l.head (some (head_node (some (length l.nodes)))))
            (some (link x q))

    fronted_rest :
        (a t : ℕ) (xs : List T) → Chain l.nodes a xs t → Chain (fronted l x q).nodes a xs t
    unfolding fronted
    fronted_rest a t xs c =
        Chain-append (set l.nodes l.head (some (head_node (some (length l.nodes)))))
          (some (link x q) ∷ []) a t xs
          (Chain-set l.nodes l.head (some (head_node (some (length l.nodes)))) a t xs c
            (head-Apart l.nodes l.head t (length xs) q h))

  -- pushFront returns, and the list then holds the new element before the others.
  pub push_front-Holds :
      (l : SafeList T) (x : T) (xs : List T)
      → Holds l xs
      → (l' : SafeList T) × (push_front x l ≡ ok l') × Holds l' (x ∷ xs)
  unfolding fronted
  push_front-Holds l x _ (nothing h e) = (
    fronted l x none,
    push_front_at l x none h,
    something (length l.nodes) (length l.nodes) (x ∷ []) (fronted_head l x none h)
        (one (length l.nodes) x (fronted_new l x none h)) refl,
  )
  push_front-Holds l x _ (something a t xs h c e) = (
    fronted l x (some a),
    push_front_at l x (some a) h,
    something (length l.nodes) t (x ∷ xs) (fronted_head l x (some a) h)
        (more (length l.nodes) a t x xs (fronted_new l x (some a) h)
          (fronted_rest l x (some a) h a t xs c))
        e,
  )

  last_lem :
      (nodes : Store T) (a t : ℕ) (xs : List T)
      → Chain nodes a xs t
      → (y : T) × Is nodes t (link y none)
  last_lem nodes _ _ _ (one a x e) = (x, e)
  last_lem nodes _ _ _ (more a b t x xs e r) = last_lem nodes b t xs r

  -- The store after a push at the back, behind the last node with the element `y`.
  backed : Store T → ℕ → T → T → Store T
  backed nodes t y x =
      set (nodes ++ some (link x none) ∷ []) t (some (link y (some (length nodes))))

  same_value :
      (nodes : Store T) (a : ℕ) (x y : T) (p q : Option ℕ)
      → Is nodes a (link x p)
      → Is nodes a (link y q)
      → x ≡ y
  same_value nodes a x y p q e f = value_of (sym e ∙ f)
    where
      value_of : some (some (link x p)) ≡ some (some (link y q)) → x ≡ y
      value_of d = cc

  backed_new :
      (nodes : Store T) (t : ℕ) (y x : T)
      → Is nodes t (link y none)
      → Is (backed nodes t y x) (length nodes) (link x none)
  unfolding backed
  backed_new nodes t y x l =
      get_elem?-set_ne (nodes ++ some (link x none) ∷ []) t (length nodes)
        (some (link y (some (length nodes))))
        (λ e. omega (arith, e, in_of_get_elem? nodes t (some (link y none)) l))
      ∙ get_elem?-back nodes (some (link x none))

  backed_last :
      (nodes : Store T) (t : ℕ) (y x : T)
      → Is nodes t (link y none)
      → Is (backed nodes t y x) t (link y (some (length nodes)))
  unfolding backed
  backed_last nodes t y x l =
      get_elem?-set_self (nodes ++ some (link x none) ∷ []) t (some (link y (some (length nodes))))
        (omega (
          arith,
          in_of_get_elem? nodes t (some (link y none)) l,
          length-append nodes (some (link x none) ∷ []),
        ))

  backed_other :
      (nodes : Store T) (t c : ℕ) (y x : T) (n : Node T)
      → Is nodes c n
      → t ≢ c
      → Is (backed nodes t y x) c n
  unfolding backed
  backed_other nodes t c y x n e apart =
      get_elem?-set_ne (nodes ++ some (link x none) ∷ []) t c (some (link y (some (length nodes))))
        apart
      ∙ Is-append nodes (some (link x none) ∷ []) c n e

  backed-Chain :
      (nodes : Store T) (a t : ℕ) (xs : List T) (y x : T)
      → Is nodes t (link y none)
      → Chain nodes a xs t
      → Chain (backed nodes t y x) a (xs ++ x ∷ []) (length nodes)
  backed-Chain nodes _ _ _ y x l (one a z e) =
      more a (length nodes) (length nodes) z (x ∷ [])
        (subst (λ v. Is (backed nodes a y x) a (link v (some (length nodes))))
          (same_value nodes a y z none none l e) (backed_last nodes a y x l))
        (one (length nodes) x (backed_new nodes a y x l))
  backed-Chain nodes _ _ _ y x l (more a b t z zs e r) =
      more a b (length nodes) z (zs ++ x ∷ [])
        (backed_other nodes t a y x (link z (some b)) e (λ i. none_ne_some b (
          same_next nodes t y z none (some b) l
            (subst (λ c. Is nodes c (link z (some b))) (sym i) e))))
        (backed-Chain nodes b t zs y x l r)

  push_back_at :
      (fuel : ℕ) (l : SafeList T) (t : ℕ) (y x : T)
      → l.tail ≡ some t
      → Is l.nodes t (link y none)
      → push_back fuel x l
        ≡ ok (record { nodes = backed l.nodes t y x; head = l.head; tail = some (length l.nodes) })
  unfolding push_back reset_next destroy backed
  push_back_at fuel l t y x e h =
      let at : get_elem? (l.nodes ++ some (link x none) ∷ []) t ≡ some (some (link y none)) =
        Is-append l.nodes (some (link x none) ∷ []) t (link y none) h in
      rw (e, push_back) (rw (at, reset_next) refl)

  -- pushBack on a list that has an element returns, and the list then holds the new element behind
  -- the others. On an empty list it reads the pointer `tail_` that no code has set.
  pub push_back-Holds :
      (fuel : ℕ) (l : SafeList T) (x y : T) (ys : List T)
      → Holds l (y ∷ ys)
      → (l' : SafeList T) × (push_back fuel x l ≡ ok l') × Holds l' (y ∷ ys ++ x ∷ [])
  push_back-Holds fuel l x y ys (something a t _ h c e) =
      let (z, hz) = last_lem l.nodes a t (y ∷ ys) c in
      (
        record { nodes = backed l.nodes t z x; head = l.head; tail = some (length l.nodes) },
        push_back_at fuel l t z x e hz,
        something a (length l.nodes) (y ∷ ys ++ x ∷ [])
            (backed_other l.nodes t l.head z x (head_node (some a)) h
              (λ i. head-ne l.nodes l.head t none (some a) z h hz (sym i)))
            (backed-Chain l.nodes a t (y ∷ ys) z x hz c) refl,
      )

  no_empty_chain : (nodes : Store T) (a t : ℕ) (xs : List T) → Chain nodes a xs t → xs ≢ []
  no_empty_chain nodes _ _ _ (one a x e) i = cc
  no_empty_chain nodes _ _ _ (more a b t x xs e r) i = cc

  pub push_back_of_empty :
      (fuel : ℕ) (l : SafeList T) (x : T) → Holds l [] → push_back fuel x l ≡ fault
  unfolding push_back
  push_back_of_empty fuel l x (nothing h e) = rw (e, push_back)
  push_back_of_empty fuel l x (something a t _ h c e) =
      absurd (no_empty_chain l.nodes a t [] c refl)
