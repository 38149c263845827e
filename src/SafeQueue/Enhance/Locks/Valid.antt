-- ===== src/SafeQueue/Enhance/Locks/Valid.antt =====
-- What is in the queue at any time, whatever the schedule.
use cxx.Common.{
  ◌-◌, ◌≤◌, ◌≡◌, ◌∙◌, refl, sym, ap, subst, Option, some, List, [], ◌∷◌, ◌++◌, append_assoc,
}
use mathlib.Core.Option.{some-injective}
use cxx.SafeQueue.Enhance.{new}
use cxx.SafeQueue.Enhance.Locks.{
  Push, no_push, stores, links, moves_tail, Pop, no_pop, tests_tail, takes, moves_head, frees,
  Shared, Move, calls_push, push_goes_on, calls_pop, pop_goes_on, push_step, pop_step, completes,
  gives, after_push, after_pop, enter_push, enter_pop, shared_step, run, start,
}
use cxx.SafeQueue.Enhance.Locks.Agree.{held, Agrees, push_left, pop_left}
use cxx.SafeQueue.Enhance.Locks.Pushes.{enter_push-Agrees, push_step-Stepped}
use cxx.SafeQueue.Enhance.Locks.Pops.{pop_step-Stepped}

module _ {ℓ} {T : Type ℓ} where
  -- What pops have given, what a pop holds and what is in the chain are the elements of the pushes
  -- that have returned, in order.
  pub record IsValid (s : Shared T) : Type ℓ where
    pub inside : List T
    pub agrees : Agrees s.queue s.pushing s.popping inside
    pub order : s.popped ++ held s.popping ++ inside ≡ s.pushed

  pub start-IsValid : IsValid start
  unfolding new
  start-IsValid = record {
    inside = [];
    agrees = record { first = 0; chain = (refl, tt); pushing = refl; popping = (refl, tt) };
    order = refl;
  }

  abbrev pub Goes : (Shared T → Type ℓ) → Option (Shared T) → Type ℓ
  Goes P o = (s : Shared T) × (o ≡ some s) × P s

  -- A step of a push leaves the pop alone, and it has one step less to go.
  pub record Pushed (s s' : Shared T) : Type ℓ where
    pub valid : IsValid s'
    pub other : s'.popping ≡ s.popping
    pub left : push_left s'.pushing ≤ push_left s.pushing - 1

  pub record Popped (s s' : Shared T) : Type ℓ where
    pub valid : IsValid s'
    pub other : s'.pushing ≡ s.pushing
    pub left : pop_left s'.popping ≤ pop_left s.popping - 1

  pub push_step-Pushed :
      (s : Shared T) → IsValid s → Goes (Pushed s) (after_push s (push_step s.queue s.pushing))
  push_step-Pushed s v =
      let r = push_step-Stepped s.queue s.pushing s.popping v.inside v.agrees in
      (
        record s { queue = r.queue; pushing = r.call; pushed = s.pushed ++ completes s.pushing },
        ap (after_push s) r.result,
        record {
          valid = record {
            inside = v.inside ++ completes s.pushing;
            agrees = r.agrees;
            order =
                sym (append_assoc (s.popped ++ held s.popping) v.inside (completes s.pushing))
                ∙ ap (λ t. t ++ completes s.pushing) v.order;
          };
          other = refl;
          left = r.left;
        },
      )

  pub pop_step-Popped :
      (s : Shared T) → IsValid s → Goes (Popped s) (after_pop s (pop_step s.queue s.popping))
  pop_step-Popped s v =
      let r = pop_step-Stepped s.queue s.pushing s.popping v.inside v.agrees in
      (
        record s { queue = r.queue; popping = r.call; popped = s.popped ++ gives s.popping },
        ap (after_pop s) r.result,
        record {
          valid = record {
            inside = r.inside_after;
            agrees = r.agrees;
            order =
                append_assoc (s.popped ++ gives s.popping) (held r.call) r.inside_after
                ∙ append_assoc s.popped (gives s.popping) (held r.call ++ r.inside_after)
                ∙ ap (λ t. s.popped ++ t)
                    (sym (append_assoc (gives s.popping) (held r.call) r.inside_after) ∙ r.same)
                ∙ sym (append_assoc s.popped (held s.popping) v.inside)
                ∙ v.order;
          };
          other = refl;
          left = r.left;
        },
      )

  enter_push-IsValid :
      (s : Shared T) (x : T) (p : Push T) → s.pushing ≡ p → IsValid s → IsValid (enter_push s p x)
  enter_push-IsValid s x no_push e v = record {
    inside = v.inside;
    agrees =
        enter_push-Agrees s.queue s.popping v.inside x
          (subst (λ t. Agrees s.queue t s.popping v.inside) e v.agrees);
    order = v.order;
  }
  enter_push-IsValid s x (stores y n) e v = v
  enter_push-IsValid s x (links y n) e v = v
  enter_push-IsValid s x (moves_tail y n) e v = v

  enter_pop-IsValid :
      (s : Shared T) (c : Pop T) → s.popping ≡ c → IsValid s → IsValid (enter_pop s c)
  enter_pop-IsValid s no_pop e v =
      let a : Agrees s.queue s.pushing no_pop v.inside =
        subst (λ t. Agrees s.queue s.pushing t v.inside) e v.agrees in
      record {
        inside = v.inside;
        agrees = record {
          first = a.first;
          chain = a.chain;
          pushing = a.pushing;
          popping = a.popping;
        };
        order = subst (λ t. s.popped ++ held t ++ v.inside ≡ s.pushed) e v.order;
      }
  enter_pop-IsValid s tests_tail e v = v
  enter_pop-IsValid s takes e v = v
  enter_pop-IsValid s (moves_head h x) e v = v
  enter_pop-IsValid s (frees h x) e v = v

  pub step-IsValid : (s : Shared T) (m : Move T) → IsValid s → Goes IsValid (shared_step s m)
  unfolding shared_step
  step-IsValid s (calls_push x) v =
      (enter_push s s.pushing x, refl, enter_push-IsValid s x s.pushing refl v)
  step-IsValid s push_goes_on v = let (s', e, w) = push_step-Pushed s v in (s', e, w.valid)
  step-IsValid s calls_pop v = (enter_pop s s.popping, refl, enter_pop-IsValid s s.popping refl v)
  step-IsValid s pop_goes_on v = let (s', e, w) = pop_step-Popped s v in (s', e, w.valid)

  pub run-step :
      (s s' : Shared T) (m : Move T) (ms : List (Move T))
      → shared_step s m ≡ some s'
      → run (m ∷ ms) s ≡ run ms s'
  unfolding run
  run-step s s' m ms e = rw (e, run) refl

  pub run-IsValid : (ms : List (Move T)) (s : Shared T) → IsValid s → Goes IsValid (run ms s)
  run-IsValid [] s v = (s, unfold run in refl, v)
  run-IsValid (m ∷ ms) s v =
      let (s', e, w) = step-IsValid s m v in
      let (t, f, u) = run-IsValid ms s' w in (t, run-step s s' m ms e ∙ f, u)

  pub run-append :
      (ms ns : List (Move T)) (s s' : Shared T)
      → IsValid s
      → run ms s ≡ some s'
      → run (ms ++ ns) s ≡ run ns s'
  run-append [] ns s s' v h = ap (run ns) (some-injective s s' (unfold run in h))
  run-append (m ∷ ms) ns s s' v h =
      let (t, e, w) = step-IsValid s m v in
      run-step s t m (ms ++ ns) e ∙ run-append ms ns t s' w (sym (run-step s t m ms e) ∙ h)
