-- ===== src/Messaging/Dispatch.antt =====
-- What a wait does with the messages of a queue, against what the handlers of its chain take.
use cxx.Common.{
  ◌≡◌, refl, ap, Bool, true, false, Option, none, some, List, [], ◌∷◌, ◌++◌, inl, inr, Bool-cases,
}
use cxx.Messaging.{
  Chain, wait, ◌▹◌, Outcome, handled, skipped, thrown, Wait, returned, closed, blocked, dispatch,
  wait_and_dispatch,
}

module _ {ℓ κ} {M : Type ℓ} {R : Type κ} where
  -- The handlers of a chain, the one that `handle` added last first.
  abbrev pub handlers : Chain M R → List (M → Option R)
  handlers wait = []
  handlers (prev ▹ f) = f ∷ handlers prev

  abbrev pub NoneTakes : List (M → Option R) → M → Type κ
  NoneTakes [] m = Unit
  NoneTakes (f ∷ fs) m = (f m ≡ none) × NoneTakes fs m

module _ {ℓ κ} {M : Type ℓ} {R : Type κ} (is_close : M → Bool) where
  -- The messages that no handler takes and that are no CloseQueue
  abbrev pub AllIgnored : List (M → Option R) → List M → Type κ
  AllIgnored fs [] = Unit
  AllIgnored fs (m ∷ ms) = (NoneTakes fs m × (is_close m ≡ false)) × AllIgnored fs ms

  -- How the wait ends at a message: by the result of the first handler that takes it, or by the
  -- exception of a CloseQueue that none takes.
  pub data Decides (fs : List (M → Option R)) (m : M) (after : List M)
      : Wait M R → Type (ℓ ⊔ κ) where
    taken :
        (before : List (M → Option R)) (f : M → Option R) (rest : List (M → Option R)) (r : R)
        → fs ≡ before ++ f ∷ rest
        → NoneTakes before m
        → f m ≡ some r
        → Decides fs m after (returned r after)
    closes : NoneTakes fs m → is_close m ≡ true → Decides fs m after (closed after)

  -- How a wait ends: at the first message that is not ignored, or not at all.
  pub data Waits (fs : List (M → Option R)) (q : List M) : Wait M R → Type (ℓ ⊔ κ) where
    ends :
        (before : List M) (m : M) (after : List M) (w : Wait M R)
        → q ≡ before ++ m ∷ after
        → AllIgnored fs before
        → Decides fs m after w
        → Waits fs q w
    waits_on : AllIgnored fs q → Waits fs q blocked

  -- What one message does
  data Says (fs : List (M → Option R)) (m : M) : Outcome R → Type (ℓ ⊔ κ) where
    takes :
        (before : List (M → Option R)) (f : M → Option R) (rest : List (M → Option R)) (r : R)
        → fs ≡ before ++ f ∷ rest
        → NoneTakes before m
        → f m ≡ some r
        → Says fs m (handled r)
    throws : NoneTakes fs m → is_close m ≡ true → Says fs m thrown
    ignores : NoneTakes fs m → is_close m ≡ false → Says fs m skipped

  prepend :
      (f : M → Option R) (fs : List (M → Option R)) (m : M) (o : Outcome R)
      → f m ≡ none
      → Says fs m o
      → Says (f ∷ fs) m o
  prepend f fs m _ e (takes before g rest r s n t) =
      takes (f ∷ before) g rest r (ap (λ gs. f ∷ gs) s) (e, n) t
  prepend f fs m _ e (throws n c) = throws (e, n) c
  prepend f fs m _ e (ignores n c) = ignores (e, n) c

  taken_by :
      (c : Chain M R) (f : M → Option R) (m : M) (o : Option R)
      → f m ≡ o
      → Says (handlers c) m (dispatch is_close c m)
      → Says (f ∷ handlers c) m (elim o [ some r ↦ handled r | none ↦ dispatch is_close c m ])
  taken_by c f m none e s = prepend f (handlers c) m (dispatch is_close c m) e s
  taken_by c f m (some r) e s = takes [] f (handlers c) r refl tt e

  dispatch-Says : (c : Chain M R) (m : M) → Says (handlers c) m (dispatch is_close c m)
  unfolding dispatch
  dispatch-Says wait m = elim (Bool-cases (is_close m)) [
    | inl e ↦ rw e (throws tt e)
    | inr e ↦ rw e (ignores tt e)
  ]
  dispatch-Says (prev ▹ f) m = taken_by prev f m (f m) refl (dispatch-Says prev m)

  put_before :
      (fs : List (M → Option R)) (m : M) (q : List M) (w : Wait M R)
      → NoneTakes fs m × (is_close m ≡ false)
      → Waits fs q w
      → Waits fs (m ∷ q) w
  put_before fs m q _ h (ends before m' after w e n d) =
      ends (m ∷ before) m' after w (ap (λ ms. m ∷ ms) e) (h, n) d
  put_before fs m q _ h (waits_on n) = waits_on (h, n)

  one_message :
      (c : Chain M R) (m : M) (q : List M) (o : Outcome R)
      → Says (handlers c) m o
      → Waits (handlers c) q (wait_and_dispatch is_close c q)
      → Waits (handlers c) (m ∷ q) (elim o [
        | handled r ↦ returned r q
        | thrown ↦ closed q
        | skipped ↦ wait_and_dispatch is_close c q
      ])
  one_message c m q _ (takes before f rest r s n t) w =
      ends [] m q (returned r q) refl tt (taken before f rest r s n t)
  one_message c m q _ (throws n e) w = ends [] m q (closed q) refl tt (closes n e)
  one_message c m q _ (ignores n e) w =
      put_before (handlers c) m q (wait_and_dispatch is_close c q) (n, e) w

  -- A wait throws away the messages that no handler of its chain takes, but for a CloseQueue. The
  -- first message that a handler takes ends it with the result of the first handler that does, the
  -- one added last being asked first; a CloseQueue that none takes ends it by the exception; the
  -- messages behind stay in the queue. With no such message it waits on.
  pub wait_and_dispatch_lem :
      (c : Chain M R) (q : List M) → Waits (handlers c) q (wait_and_dispatch is_close c q)
  unfolding wait_and_dispatch
  wait_and_dispatch_lem c [] = waits_on tt
  wait_and_dispatch_lem c (m ∷ q) =
      one_message c m q (dispatch is_close c m) (dispatch-Says c m) (wait_and_dispatch_lem c q)
