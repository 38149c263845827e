-- ===== src/SafeQueue/Enhance/Locks/Agree.antt =====
-- What the two calls that are on their way have made of the chain, and what does not disturb it.
use cxx.Common.{
  ℕ, ◌≤◌, ◌<◌, ◌≡◌, ◌≢◌, ◌∙◌, refl, ap, arith, Option, none, some, List, [], ◌∷◌, ◌++◌, get_elem?,
  set, get_elem?-set_ne, get_elem?-front, in_of_get_elem?, ◌⊎◌,
}
use cxx.SafeQueue.Enhance.{QueueNode, Queue, blank}
use cxx.SafeQueue.Enhance.Fifo.{link, Chain, chain-le}
use cxx.SafeQueue.Enhance.Locks.{
  Push, no_push, stores, links, moves_tail, Pop, no_pop, tests_tail, takes, moves_head, frees,
}

abbrev pub Nodes {ℓ} : Type ℓ → Type ℓ
Nodes T = List (Option (QueueNode T))

module _ {ℓ} {T : Type ℓ} where
  -- A change of a node that is not in the chain.
  pub outside-Chain :
      (nodes : Nodes T) (i a b : ℕ) (v : Option (QueueNode T)) (xs : List T)
      → (i < a) ⊎ (b ≤ i)
      → Chain nodes a xs b
      → Chain (set nodes i v) a xs b
  outside-Chain nodes i a b v [] o c = c
  outside-Chain nodes i a b v (x ∷ xs) o (n, at, l, c) =
      let le = chain-le nodes n b xs c in
      (
        n,
        get_elem?-set_ne nodes i a v (λ e. ground (arith, o, e, l, le)) ∙ at,
        l,
        outside-Chain nodes i n b v xs (ground (arith, o, l)) c,
      )

  pub append-Chain :
      (nodes ys : Nodes T) (a b : ℕ) (xs : List T) → Chain nodes a xs b → Chain (nodes ++ ys) a xs b
  append-Chain nodes ys a b [] c = c
  append-Chain nodes ys a b (x ∷ xs) (n, at, l, c) = (
    n,
    get_elem?-front nodes ys a (in_of_get_elem? nodes a (some (link x n)) at) ∙ at,
    l,
    append-Chain nodes ys n b xs c,
  )

  pub extend-Chain :
      (nodes : Nodes T) (a b n : ℕ) (xs : List T) (x : T)
      → get_elem? nodes b ≡ some (some (link x n))
      → b < n
      → Chain nodes a xs b
      → Chain nodes a (xs ++ x ∷ []) n
  extend-Chain nodes a b n [] x at l (e, u) =
      (n, ap (get_elem? nodes) e ∙ at, omega (arith, e, l), (refl, tt))
  extend-Chain nodes a b n (y ∷ ys) x at l (m, here, k, c) =
      (m, here, k, extend-Chain nodes m b n ys x at l c)

  -- The last node, and the new one of a push
  abbrev pub Fresh : Nodes T → ℕ → QueueNode T → ℕ → Type ℓ
  Fresh nodes tail node n =
      (get_elem? nodes tail ≡ some (some node))
      × (get_elem? nodes n ≡ some (some blank))
      × (tail < n)

  -- What the push has done, by its phase.
  abbrev pub Pushing : Nodes T → ℕ → Push T → Type ℓ
  Pushing nodes tail no_push = get_elem? nodes tail ≡ some (some blank)
  Pushing nodes tail (stores x n) = Fresh nodes tail blank n
  Pushing nodes tail (links x n) = Fresh nodes tail (record { value = some x; next = none }) n
  Pushing nodes tail (moves_tail x n) = Fresh nodes tail (link x n) n

  -- What the pop has done; `first` is the node of the oldest element that it has not taken.
  abbrev pub Popping : Queue T → ℕ → Pop T → Type ℓ
  Popping q first no_pop = (q.head ≡ some first) × Unit
  Popping q first tests_tail = (q.head ≡ some first) × Unit
  Popping q first takes = (q.head ≡ some first) × (first ≢ q.tail) × Unit
  Popping q first (moves_head h x) =
      (q.head ≡ none) × (get_elem? q.nodes h ≡ some (some (link x first))) × (h < first)
  Popping q first (frees h x) =
      (q.head ≡ some first)
      × ((node : QueueNode T) × (get_elem? q.nodes h ≡ some (some node)))
      × (h < first)

  -- The element that a pop has taken and not yet given
  abbrev pub held : Pop T → List T
  held no_pop = []
  held tests_tail = []
  held takes = []
  held (moves_head h x) = x ∷ []
  held (frees h x) = x ∷ []

  pub record Agrees (q : Queue T) (p : Push T) (c : Pop T) (inside : List T) : Type ℓ where
    pub first : ℕ
    pub chain : Chain q.nodes first inside q.tail
    pub pushing : Pushing q.nodes q.tail p
    pub popping : Popping q first c

  -- A pop does not see what a push does to the nodes from the tail on.
  pub kept-Popping :
      (q q' : Queue T) (first : ℕ) (c : Pop T)
      → q'.head ≡ q.head
      → (first ≢ q.tail → first ≢ q'.tail)
      → ((h : ℕ) (node : QueueNode T)
          → h < first
          → get_elem? q.nodes h ≡ some (some node)
          → get_elem? q'.nodes h ≡ some (some node))
      → Popping q first c
      → Popping q' first c
  kept-Popping q q' first no_pop e t k (v, u) = (e ∙ v, tt)
  kept-Popping q q' first tests_tail e t k (v, u) = (e ∙ v, tt)
  kept-Popping q q' first takes e t k (v, n, u) = (e ∙ v, t n, tt)
  kept-Popping q q' first (moves_head h x) e t k (v, at, l) = (e ∙ v, k h (link x first) l at, l)
  kept-Popping q q' first (frees h x) e t k (v, (node, at), l) = (e ∙ v, (node, k h node l at), l)

  pub before :
      (nodes : Nodes T) (h i : ℕ) (node : QueueNode T)
      → h < i
      → get_elem? nodes i ≡ some (some node)
      → get_elem? (set nodes h none) i ≡ some (some node)
  before nodes h i node l at = get_elem?-set_ne nodes h i none (λ e. omega (arith, e, l)) ∙ at

  before-Fresh :
      (nodes : Nodes T) (h tail n : ℕ) (node : QueueNode T)
      → h < tail
      → Fresh nodes tail node n
      → Fresh (set nodes h none) tail node n
  before-Fresh nodes h tail n node l (at, new_at, m) =
      (before nodes h tail node l at, before nodes h n blank (omega (arith, l, m)) new_at, m)

  -- A push does not see what a pop does to a node before the tail.
  pub kept-Pushing :
      (nodes : Nodes T) (tail h : ℕ) (p : Push T)
      → h < tail
      → Pushing nodes tail p
      → Pushing (set nodes h none) tail p
  kept-Pushing nodes tail h no_push l v = before nodes h tail blank l v
  kept-Pushing nodes tail h (stores x n) l v = before-Fresh nodes h tail n blank l v
  kept-Pushing nodes tail h (links x n) l v =
      before-Fresh nodes h tail n (record { value = some x; next = none }) l v
  kept-Pushing nodes tail h (moves_tail x n) l v = before-Fresh nodes h tail n (link x n) l v

  -- The steps that a call has left
  abbrev pub push_left : Push T → ℕ
  push_left no_push = 0
  push_left (stores x n) = 3
  push_left (links x n) = 2
  push_left (moves_tail x n) = 1

  abbrev pub pop_left : Pop T → ℕ
  pop_left no_pop = 0
  pop_left tests_tail = 4
  pop_left takes = 3
  pop_left (moves_head h x) = 2
  pop_left (frees h x) = 1
