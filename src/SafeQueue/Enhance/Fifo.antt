-- ===== src/SafeQueue/Enhance/Fifo.antt =====
-- The chain of nodes as a first-in first-out queue.
use cxx.Common.{
  get_elem?-front, get_elem?-back, in_of_get_elem?, ℕ, ◌≤◌, ◌<◌, ◌≡◌, ◌≢◌, ◌∙◌, refl, sym, ap, true,
  false, Option, none, some, List, [], ◌∷◌, ◌++◌, arith, length, get_elem?, set, get_elem?-set_self,
  get_elem?-set_ne, length-append,
}
use cxx.SafeQueue.Enhance.{
  QueueNode, Queue, returns, waits, blank, new, push, pop_at, pop, is_tail, wait_pop, try_pop,
}

module _ {ℓ} {T : Type ℓ} where
  abbrev pub link : T → ℕ → QueueNode T
  link x n = record { value = some x; next = some n }

  -- The nodes from `a` up to `b` hold the elements, each behind the one before it in the store.
  abbrev pub Chain : List (Option (QueueNode T)) → ℕ → List T → ℕ → Type ℓ
  Chain nodes a [] b = (a ≡ b) × Unit
  Chain nodes a (x ∷ xs) b =
      (n : ℕ) × (get_elem? nodes a ≡ some (some (link x n))) × (a < n) × Chain nodes n xs b

  -- The queue holds the elements, oldest first.
  pub record Chained (q : Queue T) (xs : List T) : Type ℓ where
    pub first : ℕ
    pub head_at : q.head ≡ some first
    pub chain : Chain q.nodes first xs q.tail
    pub last : get_elem? q.nodes q.tail ≡ some (some blank)

  link-blank : (x : T) (n : ℕ) → some (some (link x n)) ≢ some (some blank)
  link-blank x n e = cc

  pub chain-le :
      (nodes : List (Option (QueueNode T))) (a b : ℕ) (xs : List T) → Chain nodes a xs b → a ≤ b
  chain-le nodes a b [] c = omega (arith, c.0)
  chain-le nodes a b (x ∷ xs) (n, at, l, c) = omega (arith, chain-le nodes n b xs c, l)

  freed-Chain :
      (nodes : List (Option (QueueNode T))) (h a b : ℕ) (xs : List T)
      → h < a
      → Chain nodes a xs b
      → Chain (set nodes h none) a xs b
  freed-Chain nodes h a b [] l c = c
  freed-Chain nodes h a b (x ∷ xs) l (n, at, m, c) = (
    n,
    get_elem?-set_ne nodes h a none (λ e. omega (arith, e, l)) ∙ at,
    m,
    freed-Chain nodes h n b xs (omega (arith, l, m)) c,
  )

  -- The store after a push
  abbrev grown : List (Option (QueueNode T)) → ℕ → T → List (Option (QueueNode T))
  grown nodes t x = set (nodes ++ some blank ∷ []) t (some (link x (length nodes)))

  pushed-Chain :
      (nodes : List (Option (QueueNode T))) (a b : ℕ) (xs : List T) (x : T)
      → get_elem? nodes b ≡ some (some blank)
      → Chain nodes a xs b
      → Chain (grown nodes b x) a (xs ++ x ∷ []) (length nodes)
  pushed-Chain nodes a b [] x t (e, u) =
      let here = in_of_get_elem? nodes b (some blank) t in
      (
        length nodes,
        ap (get_elem? (grown nodes b x)) e
            ∙ get_elem?-set_self (nodes ++ some blank ∷ []) b (some (link x (length nodes)))
                (omega (arith, here, length-append nodes (some blank ∷ []))),
        omega (arith, e, here),
        (refl, tt),
      )
  pushed-Chain nodes a b (y ∷ ys) x t (n, at, m, c) = (
    n,
    get_elem?-set_ne (nodes ++ some blank ∷ []) b a (some (link x (length nodes)))
          (λ e. link-blank y n (sym at ∙ ap (get_elem? nodes) (sym e) ∙ t))
        ∙ get_elem?-front nodes (some blank ∷ []) a (in_of_get_elem? nodes a (some (link y n)) at)
        ∙ at,
    m,
    pushed-Chain nodes n b ys x t c,
  )

  -- A new queue is empty.
  pub new-Chained : Chained new []
  unfolding new
  new-Chained = record { first = 0; head_at = refl; chain = (refl, tt); last = refl }

  -- A push on a chain of nodes that holds a queue returns, and the chain then holds the new
  -- element behind the others.
  pub push-Chained :
      (q : Queue T) (xs : List T) (x : T)
      → Chained q xs
      → (q' : Queue T) × (push x q ≡ returns q') × Chained q' (xs ++ x ∷ [])
  unfolding push
  push-Chained q xs x h =
      let q' : Queue T = record {
        nodes = grown q.nodes q.tail x;
        head = q.head;
        tail = length q.nodes;
      } in
      (
        q',
        rw (h.last, push),
        record {
          first = h.first;
          head_at = h.head_at;
          chain = pushed-Chain q.nodes h.first q.tail xs x h.last h.chain;
          last =
              get_elem?-set_ne (q.nodes ++ some blank ∷ []) q.tail (length q.nodes)
                (some (link x (length q.nodes)))
                (λ e. omega (arith, e, in_of_get_elem? q.nodes q.tail (some blank) h.last))
              ∙ get_elem?-back q.nodes (some blank);
        },
      )

  -- What a call with the element `x` before the others gives
  abbrev pub Popped : T → List T → Queue T → Type ℓ
  Popped x xs q =
      (q' : Queue T) × (wait_pop q ≡ returns (x, q'))
      × (try_pop q ≡ returns (some x, q'))
      × Chained q' xs

  after : Queue T → ℕ → ℕ → Queue T
  after q h n = record { nodes = set q.nodes h none; head = some n; tail = q.tail }

  after-Chained :
      (q : Queue T) (h n : ℕ) (x : T) (xs : List T)
      → h < n
      → Chain q.nodes n xs q.tail
      → get_elem? q.nodes q.tail ≡ some (some blank)
      → Chained (after q h n) xs
  unfolding after
  after-Chained q h n x xs l c last = record {
    first = n;
    head_at = refl;
    chain = freed-Chain q.nodes h n q.tail xs l c;
    last =
        get_elem?-set_ne q.nodes h q.tail none
          (λ e. omega (arith, e, l, chain-le q.nodes n q.tail xs c))
        ∙ last;
  }

  pop_lem :
      (q : Queue T) (h n : ℕ) (x : T)
      → q.head ≡ some h
      → get_elem? q.nodes h ≡ some (some (link x n))
      → pop q ≡ returns (x, after q h n)
  unfolding pop after
  pop_lem q h n x e at = rw (e, pop) (rw (at, pop_at))

  -- On a chain that holds an element, wait_pop and try_pop return the oldest one, free its node
  -- and touch no freed node; the chain then holds the others.
  pub pop-Chained : (q : Queue T) (x : T) (xs : List T) → Chained q (x ∷ xs) → Popped x xs q
  unfolding wait_pop try_pop
  pop-Chained q x xs h =
      let (n, at, l, c) = h.chain in
      let busy : is_tail q.head q.tail ≡ false =
        rw h.head_at (ground (arith, l, chain-le q.nodes n q.tail xs c)) in
      let e = pop_lem q h.first n x h.head_at at in
      (
        after q h.first n,
        rw (busy, e, wait_pop),
        rw (busy, e, try_pop),
        after-Chained q h.first n x xs l c h.last,
      )

  -- On a chain that holds nothing wait_pop waits, and try_pop returns false and changes nothing.
  pub pop_of_empty :
      (q : Queue T) → Chained q [] → (wait_pop q ≡ waits) × (try_pop q ≡ returns (none, q))
  unfolding wait_pop try_pop
  pop_of_empty q h =
      let shut : is_tail q.head q.tail ≡ true = rw h.head_at (ground (arith, h.chain.0)) in
      (rw (shut, wait_pop), rw (shut, try_pop))
