-- ===== src/SafeQueue/Enhance/Locks/Pushes.antt =====
-- The steps of a push keep what the two calls have made of the chain.
use cxx.Common.{
  ℕ, ◌-◌, ◌≤◌, ◌≡◌, ◌∙◌, refl, sym, subst, arith, Option, none, some, List, [], ◌∷◌, ◌++◌,
  append-nil, length, get_elem?, set, get_elem?-set_self, get_elem?-set_ne, get_elem?-front,
  get_elem?-back, in_of_get_elem?, inr,
}
use cxx.SafeQueue.Enhance.{QueueNode, Queue, blank}
use cxx.SafeQueue.Enhance.Fifo.{link, chain-le}
use cxx.SafeQueue.Enhance.Locks.Agree.{
  push_left, Nodes, outside-Chain, append-Chain, extend-Chain, Fresh, Pushing, Agrees, kept-Popping,
}
use cxx.SafeQueue.Enhance.Locks.{
  Push, no_push, stores, links, moves_tail, Pop, store_at_tail, link_at_tail, push_step, completes,
}

module _ {ℓ} {T : Type ℓ} where
  -- The last node changes, and no other one.
  written :
      (nodes : Nodes T) (tail n : ℕ) (old node : QueueNode T)
      → Fresh nodes tail old n
      → Fresh (set nodes tail (some node)) tail node n
  written nodes tail n old node (at, new_at, l) = (
    get_elem?-set_self nodes tail (some node) (in_of_get_elem? nodes tail (some old) at),
    get_elem?-set_ne nodes tail n (some node) (λ e. omega (arith, e, l)) ∙ new_at,
    l,
  )

  write-Agrees :
      (q : Queue T) (p p' : Push T) (c : Pop T) (inside : List T) (old node : QueueNode T)
      → get_elem? q.nodes q.tail ≡ some (some old)
      → (a : Agrees q p c inside) → Pushing (set q.nodes q.tail (some node)) q.tail p'
      → Agrees (record q { nodes = set q.nodes q.tail (some node) }) p' c inside
  write-Agrees q p p' c inside old node at a v =
      let q' : Queue T = record q { nodes = set q.nodes q.tail (some node) } in
      record {
        first = a.first;
        chain =
            outside-Chain q.nodes q.tail a.first q.tail (some node) inside (inr (omega arith))
              a.chain;
        pushing = v;
        popping =
            kept-Popping q q' a.first c refl (λ n. n)
              (λ h k l s.
                get_elem?-set_ne q.nodes q.tail h (some node)
                  (λ e. omega (arith, e, l, chain-le q.nodes a.first q.tail inside a.chain))
                ∙ s)
              a.popping;
      }

  pub enter_push-Agrees :
      (q : Queue T) (c : Pop T) (inside : List T) (x : T)
      → Agrees q no_push c inside
      → Agrees
          (record q { nodes = q.nodes ++ some blank ∷ [] })
          (stores x (length q.nodes))
          c
          inside
  enter_push-Agrees q c inside x a =
      let q' : Queue T = record q { nodes = q.nodes ++ some blank ∷ [] } in
      let l = in_of_get_elem? q.nodes q.tail (some blank) a.pushing in
      record {
        first = a.first;
        chain = append-Chain q.nodes (some blank ∷ []) a.first q.tail inside a.chain;
        pushing = (
          get_elem?-front q.nodes (some blank ∷ []) q.tail l ∙ a.pushing,
          get_elem?-back q.nodes (some blank),
          l,
        );
        popping =
            kept-Popping q q' a.first c refl (λ n. n)
              (λ h k m s.
                get_elem?-front q.nodes (some blank ∷ []) h (in_of_get_elem? q.nodes h (some k) s)
                ∙ s)
              a.popping;
      }

  -- What a step of a call gives, and that the two calls still agree.
  pub record Stepped (q : Queue T) (p : Push T) (c : Pop T) (inside : List T)
      (r : Option (Queue T × Push T)) : Type ℓ where
    pub queue : Queue T
    pub call : Push T
    pub result : r ≡ some (queue, call)
    pub left : push_left call ≤ push_left p - 1
    pub agrees : Agrees queue call c (inside ++ completes p)

  pub push_step-Stepped :
      (q : Queue T) (p : Push T) (c : Pop T) (inside : List T)
      → Agrees q p c inside
      → Stepped q p c inside (push_step q p)
  unfolding push_step
  push_step-Stepped q no_push c inside a = record {
    queue = q;
    call = no_push;
    result = refl;
    left = omega arith;
    agrees = subst (Agrees q no_push c) (sym (append-nil inside)) a;
  }
  push_step-Stepped q (stores x n) c inside a = record {
    queue = _;
    call = links x n;
    result = rw (a.pushing.0, store_at_tail, push_step) refl;
    left = omega arith;
    agrees = subst (Agrees _ (links x n) c) (sym (append-nil inside)) (
        write-Agrees q (stores x n) (links x n) c inside blank
          (record { value = some x; next = none }) a.pushing.0 a
          (written q.nodes q.tail n blank (record { value = some x; next = none }) a.pushing));
  }
  push_step-Stepped q (links x n) c inside a = record {
    queue = _;
    call = moves_tail x n;
    result = rw (a.pushing.0, link_at_tail, push_step) refl;
    left = omega arith;
    agrees = subst (Agrees _ (moves_tail x n) c) (sym (append-nil inside)) (
        write-Agrees q (links x n) (moves_tail x n) c inside
          (record { value = some x; next = none }) (link x n) a.pushing.0 a
          (written q.nodes q.tail n (record { value = some x; next = none }) (link x n) a.pushing));
  }
  push_step-Stepped q (moves_tail x n) c inside a =
      let (at, new_at, l) = a.pushing in
      let le = chain-le q.nodes a.first q.tail inside a.chain in
      record {
        queue = record q { tail = n };
        call = no_push;
        result = refl;
        left = omega arith;
        agrees = record {
          first = a.first;
          chain = extend-Chain q.nodes a.first q.tail n inside x at l a.chain;
          pushing = new_at;
          popping =
              kept-Popping q (record q { tail = n }) a.first c refl (λ m e. omega (arith, e, l, le))
                (λ h k m s. s) a.popping;
        };
      }
