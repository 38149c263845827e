-- ===== src/SafeList/Built.antt =====
-- Lists that are built by pushes.
use cxx.Common.{ℕ, ◌+◌, ◌<◌, ◌≡◌, refl, List, [], ◌∷◌, ◌++◌, arith, length, length-append}
use cxx.SafeList.{SafeList, Run, ok, fault, new, push_front, push_back, for_each, ◌>>=◌}
use cxx.SafeList.Chain.{Holds, new-Holds}
use cxx.SafeList.Pushes.{push_front-Holds, push_back-Holds, push_back_of_empty}
use cxx.SafeList.Walks.{for_each-Holds}

pub data Push {ℓ} (T : Type ℓ) : Type ℓ where
  front : T → Push T
  back : T → Push T

module _ {ℓ} {T : Type ℓ} where
  unfoldable pub pushed : ℕ → List (Push T) → SafeList T → Run (SafeList T)
  pushed fuel [] l = ok l
  pushed fuel (front x ∷ ps) l = push_front x l >>= pushed fuel ps
  pushed fuel (back x ∷ ps) l = push_back fuel x l >>= pushed fuel ps

  -- The same pushes on the list of the elements: only a push at the back of an empty list fails.
  unfoldable pub expected : List (Push T) → List T → Run (List T)
  expected [] xs = ok xs
  expected (front x ∷ ps) xs = expected ps (x ∷ xs)
  expected (back x ∷ ps) [] = fault
  expected (back x ∷ ps) (y ∷ ys) = expected ps (y ∷ ys ++ x ∷ [])

  pushed_lem :
      (fuel k : ℕ) (ps : List (Push T)) (l : SafeList T) (xs : List T)
      → length ps + length xs < k
      → Holds l xs
      → (pushed fuel ps l >>= for_each k) ≡ expected ps xs
  unfolding pushed expected
  pushed_lem fuel k [] l xs b h = for_each-Holds k l xs (omega (arith, b)) h
  pushed_lem fuel k (front x ∷ ps) l xs b h =
      let (l', e, h') = push_front-Holds l x xs h in
      rw e (pushed_lem fuel k ps l' (x ∷ xs) (omega (arith, b)) h')
  pushed_lem fuel k (back x ∷ ps) l [] b h = rw (push_back_of_empty fuel l x h) refl
  pushed_lem fuel k (back x ∷ ps) l (y ∷ ys) b h =
      let (l', e, h') = push_back-Holds fuel l x y ys h in
      rw e (
        pushed_lem fuel k ps l' (y ∷ ys ++ x ∷ []) (omega (arith, b, length-append ys (x ∷ []))) h')

  -- Pushes on a new list, at the front and at the back in any order: they return, and forEach then
  -- calls its function on the elements in the order in which they stand, each once; but a pushBack
  -- on the empty list reads a pointer that no code has set. A fuel for the walk above the number of
  -- the pushes is enough.
  pub pushed-for_each :
      (fuel k : ℕ) (ps : List (Push T))
      → length ps < k
      → (pushed fuel ps new >>= for_each k) ≡ expected ps []
  pushed-for_each fuel k ps b = pushed_lem fuel k ps new [] (omega (arith, b)) new-Holds
