-- ===== src/Channel/Order.antt =====
-- The order and the number of the values in a channel, and what a stop does.
use cxx.Common.{
  ℕ, zero, suc, ◌≤◌, ◌≡◌, ap, sym, ◌∙◌, refl, Bool, true, false, Option, none, some, List, [], ◌∷◌,
  ◌++◌, append_assoc, append-nil, length, length-append, arith, ◌==◌, if◌then◌else◌,
}
use cxx.Channel.{
  Channel, Step, sent, refused, received, ended, stopped_by, Run, done, next, send, recv, stop,
}

module _ {ℓ} {T : Type ℓ} where
  -- A send that returns true appends its value.
  send-queue :
      (c c' : Channel T) (x : T) → send x c ≡ some (true, c') → c'.queue ≡ c.queue ++ x ∷ []
  unfolding send
  send-queue c c' x e = ground arith

  recv-queue : (c c' : Channel T) (x : T) → recv c ≡ some (some x, c') → c.queue ≡ x ∷ c'.queue
  unfolding recv
  recv-queue c c' x e = ground arith

  refused-queue : (c c' : Channel T) (x : T) → send x c ≡ some (false, c') → c.queue ≡ c'.queue
  unfolding send
  refused-queue c c' x e = ground arith

  ended-queue : (c c' : Channel T) → recv c ≡ some (none, c') → c.queue ≡ c'.queue
  unfolding recv
  ended-queue c c' e = ground arith

  step-queue :
      (c c' : Channel T) (ins outs : List T)
      → Step c ins outs c'
      → c.queue ++ ins ≡ outs ++ c'.queue
  step-queue _ _ _ _ (sent c c' x e) = sym (send-queue c c' x e)
  step-queue _ _ _ _ (refused c c' x e) = append-nil c.queue ∙ refused-queue c c' x e
  step-queue _ _ _ _ (received c c' x e) = append-nil c.queue ∙ recv-queue c c' x e
  step-queue _ _ _ _ (ended c c' e) = append-nil c.queue ∙ ended-queue c c' e
  step-queue _ _ _ _ (stopped_by c) = append-nil c.queue ∙ (unfold stop in refl)

  -- Whatever the threads do, the values come out in the order in which they went in: what was in
  -- the channel, followed by what was sent, is what was received, followed by what is in it now.
  pub run-queue :
      (c c' : Channel T) (ins outs : List T) → Run c ins outs c' → c.queue ++ ins ≡ outs ++ c'.queue
  run-queue _ _ _ _ (done c) = append-nil c.queue
  run-queue _ _ _ _ (next c₀ c₁ c₂ i₁ o₁ i₂ o₂ s r) =
      sym (append_assoc c₀.queue i₁ i₂)
      ∙ ap (λ q. q ++ i₂) (step-queue c₀ c₁ i₁ o₁ s)
      ∙ append_assoc o₁ c₁.queue i₂
      ∙ ap (λ q. o₁ ++ q) (run-queue c₁ c₂ i₂ o₂ r)
      ∙ sym (append_assoc o₁ o₂ c₂.queue)

  -- No more values than the capacity, or one when the capacity is zero.
  abbrev pub Fits : Channel T → Type 0
  Fits c = length c.queue ≤ (if c.capacity == 0 then 1 else c.capacity)

  send-Fits : (c c' : Channel T) (x : T) (b : Bool) → Fits c → send x c ≡ some (b, c') → Fits c'
  unfolding send
  send-Fits c c' x b f e = ground (arith, length-append c.queue (x ∷ []))

  recv-Fits : (c c' : Channel T) (o : Option T) → Fits c → recv c ≡ some (o, c') → Fits c'
  unfolding recv
  recv-Fits c c' o f e = ground arith

  step-Fits : (c c' : Channel T) (ins outs : List T) → Fits c → Step c ins outs c' → Fits c'
  step-Fits _ _ _ _ f (sent c c' x e) = send-Fits c c' x true f e
  step-Fits _ _ _ _ f (refused c c' x e) = send-Fits c c' x false f e
  step-Fits _ _ _ _ f (received c c' x e) = recv-Fits c c' (some x) f e
  step-Fits _ _ _ _ f (ended c c' e) = recv-Fits c c' none f e
  step-Fits _ _ _ _ f (stopped_by c) = unfold stop in f

  -- A channel that holds no more values than its capacity, or than one when its capacity is zero,
  -- holds no more than that after any calls of any threads.
  pub run-Fits : (c c' : Channel T) (ins outs : List T) → Fits c → Run c ins outs c' → Fits c'
  run-Fits _ _ _ _ f (done c) = f
  run-Fits _ _ _ _ f (next c₀ c₁ c₂ i₁ o₁ i₂ o₂ s r) =
      run-Fits c₁ c₂ i₂ o₂ (step-Fits c₀ c₁ i₁ o₁ f s) r

  abbrev add_front : T → Option (List T × Channel T) → Option (List T × Channel T)
  add_front x none = none
  add_front x (some (xs, c)) = some (x ∷ xs, c)

  -- A receiver that calls recv `n` times
  abbrev pub recv_many : ℕ → Channel T → Option (List T × Channel T)
  recv_many zero c = some ([], c)
  recv_many (suc n) c = elim (recv c) [
    | none ↦ none
    | some (none, c') ↦ some ([], c')
    | some (some x, c') ↦ add_front x (recv_many n c')
  ]

  recv_many_lem :
      (xs : List T) (k : ℕ)
      → recv_many (suc (length xs)) (record { queue = xs; capacity = k; stopped = true })
        ≡ some (xs, record { queue = []; capacity = k; stopped = true })
  unfolding recv
  recv_many_lem [] k = refl
  recv_many_lem (x ∷ xs) k = ap (add_front x) (recv_many_lem xs k)

  -- No call on a stopped channel waits: a send is refused and changes nothing, and one receiver
  -- that goes on until recv returns false gets all that was in the channel, in order.
  pub stop_drains :
      (x : T) (c : Channel T)
      → (send x (stop c) ≡ some (false, stop c))
        × (recv_many (suc (length c.queue)) (stop c)
            ≡ some (c.queue, record { queue = []; capacity = c.capacity; stopped = true }))
  unfolding send stop
  stop_drains x c = (ground arith, recv_many_lem c.queue c.capacity)
