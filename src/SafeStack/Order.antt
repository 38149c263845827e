-- ===== src/SafeStack/Order.antt =====
-- What the calls of several threads on a stack leave and give.
use cxx.Common.{arith, ◌⊎◌, ◌≡◌, refl, ◌∙◌, some, List, [], ◌∷◌, ◌++◌}
use cxx.SafeStack.{push, wait_pop, try_pop}

module _ {ℓ} {T : Type ℓ} where
  -- Calls in the order in which they return that are nested: none, or a push of `x`, nested calls,
  -- a pop that gives `y`, and nested calls; with the pairs of `x` and `y`.
  pub data Nested : List T → List (T × T) → List T → Type ℓ where
    nothing : (s : List T) → Nested s [] s
    pair :
        (s s₁ s₂ s₃ : List T) (x y : T) (inner outer : List (T × T))
        → Nested (push x s) inner s₁
        → (wait_pop s₁ ≡ some (y, s₂)) ⊎ (try_pop s₁ ≡ (some y, s₂))
        → Nested s₂ outer s₃
        → Nested s ((x, y) ∷ (inner ++ outer)) s₃

  -- The two of each pair are equal.
  abbrev pub Same : List (T × T) → Type ℓ
  Same [] = Unit
  Same ((x, y) ∷ rest) = (x ≡ y) × Same rest

  append-Same : (ps qs : List (T × T)) → Same ps → Same qs → Same (ps ++ qs)
  append-Same [] qs a b = b
  append-Same ((x, y) ∷ ps) qs (e, a) b = (e, append-Same ps qs a b)

  popped :
      (s₁ s s₂ : List T) (x y : T)
      → s₁ ≡ push x s
      → (wait_pop s₁ ≡ some (y, s₂)) ⊎ (try_pop s₁ ≡ (some y, s₂))
      → (x ≡ y) × (s₂ ≡ s)
  unfolding push wait_pop try_pop
  popped s₁ s s₂ x y e p = ground (arith, e, p)

  -- Nested pushes and pops leave the stack as it was, and each pop gives the element of its push.
  pub nested_lem : (s s' : List T) (ps : List (T × T)) → Nested s ps s' → (s' ≡ s) × Same ps
  nested_lem _ _ _ (nothing s) = (refl, tt)
  nested_lem _ _ _ (pair s s₁ s₂ s₃ x y inner outer a p b) =
      let (e, same) = nested_lem (push x s) s₁ inner a in
      let (f, more) = nested_lem s₂ s₃ outer b in
      let (q, back) = popped s₁ s s₂ x y e p in (f ∙ back, (q, append-Same inner outer same more))
