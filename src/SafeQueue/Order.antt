-- ===== src/SafeQueue/Order.antt =====
-- The order in which the values leave the queue.
use cxx.Common.{
  ◌⊎◌, inl, inr, ◌≡◌, refl, sym, ap, ◌∙◌, true, false, none, some, List, [], ◌∷◌, ◌++◌,
  append_assoc, append-nil,
}
use cxx.SafeQueue.{push, wait_pop, try_pop, empty}

module _ {ℓ} {T : Type ℓ} where
  -- A call that has returned, with what it has put in and taken out.
  pub data Step : List T → List T → List T → List T → Type ℓ where
    pushed : (q : List T) (x : T) → Step q (x ∷ []) [] (push x q)
    waited : (q q' : List T) (x : T) → wait_pop q ≡ some (x, q') → Step q [] (x ∷ []) q'
    tried : (q q' : List T) (x : T) → try_pop q ≡ (some x, q') → Step q [] (x ∷ []) q'
    failed : (q q' : List T) → try_pop q ≡ (none, q') → Step q [] [] q'

  -- The calls of all threads in the order in which they return
  pub data Run : List T → List T → List T → List T → Type ℓ where
    done : (q : List T) → Run q [] [] q
    next :
        (q₀ q₁ q₂ ins₁ outs₁ ins₂ outs₂ : List T)
        → Step q₀ ins₁ outs₁ q₁
        → Run q₁ ins₂ outs₂ q₂
        → Run q₀ (ins₁ ++ ins₂) (outs₁ ++ outs₂) q₂

  step_lem : (q q' ins outs : List T) → Step q ins outs q' → q ++ ins ≡ outs ++ q'
  unfolding push wait_pop try_pop
  step_lem _ _ _ _ (pushed q x) = refl
  step_lem _ _ _ _ (waited [] q' x e) = cc
  step_lem _ _ _ _ (waited (y ∷ q) q' x e) = append-nil (y ∷ q) ∙ cc
  step_lem _ _ _ _ (tried [] q' x e) = cc
  step_lem _ _ _ _ (tried (y ∷ q) q' x e) = append-nil (y ∷ q) ∙ cc
  step_lem _ _ _ _ (failed [] q' e) = cc
  step_lem _ _ _ _ (failed (y ∷ q) q' e) = cc

  -- Whatever the threads do, the values come out in the order in which they went in: what was in
  -- the queue, followed by what was pushed, is what was popped, followed by what is in it now.
  pub run_fifo : (q q' ins outs : List T) → Run q ins outs q' → q ++ ins ≡ outs ++ q'
  run_fifo _ _ _ _ (done q) = append-nil q
  run_fifo _ _ _ _ (next q₀ q₁ q₂ i₁ o₁ i₂ o₂ s r) =
      sym (append_assoc q₀ i₁ i₂)
      ∙ ap (λ q. q ++ i₂) (step_lem q₀ q₁ i₁ o₁ s)
      ∙ append_assoc o₁ q₁ i₂
      ∙ ap (λ q. o₁ ++ q) (run_fifo q₁ q₂ i₂ o₂ r)
      ∙ sym (append_assoc o₁ o₂ q₂)

  -- `empty` tells whether try_pop fails and wait_pop waits.
  pub empty_lem :
      (q : List T)
      → ((empty q ≡ true) × (try_pop q ≡ (none, q)) × (wait_pop q ≡ none))
        ⊎ ((x : T) × (q' : List T) × (empty q ≡ false)
            × (try_pop q ≡ (some x, q'))
            × (wait_pop q ≡ some (x, q')))
  unfolding empty try_pop wait_pop
  empty_lem [] = inl (refl, refl, refl)
  empty_lem (x ∷ q) = inr (x, q, refl, refl, refl)
