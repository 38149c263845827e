-- ===== src/CircleQueue/Runs.antt =====
-- The ring against a queue that is a list.
use cxx.Common.{
  ℕ, ◌+◌, ◌≡◌, ◌∙◌, refl, ap, Bool, true, false, Option, none, some, List, [], ◌∷◌, ◌++◌, arith,
  length, ltb, if◌then◌else◌, Bool-cases, inl, inr, ◌==◌, ◌%◌,
}
use cxx.CircleQueue.{Ring, new, emplace, pop}
use cxx.CircleQueue.Fifo.{Holds, new-Holds, emplace-Holds, pop-Holds, pop_empty}

pub data Request {ℓ} (T : Type ℓ) : Type ℓ where
  emplaces : T → Request T
  pops : Request T

module _ {ℓ} {T : Type ℓ} where
  -- What the calls return: the result, and what is moved out.
  unfoldable pub answers : List (Request T) → Ring T → List (Bool × Option T)
  answers [] q = []
  answers (emplaces x ∷ rs) q = ((emplace q x).0, none) ∷ answers rs (emplace q x).1
  answers (pops ∷ rs) q = ((pop q).0, (pop q).1) ∷ answers rs (pop q).2

  -- The same calls on a list that holds at most `cap` elements, oldest first.
  unfoldable pub bounded : ℕ → List (Request T) → List T → List (Bool × Option T)
  bounded cap [] xs = []
  bounded cap (emplaces x ∷ rs) xs =
      (ltb (length xs) cap, none)
      ∷ bounded cap rs (if ltb (length xs) cap then xs ++ x ∷ [] else xs)
  bounded cap (pops ∷ rs) [] = (false, none) ∷ bounded cap rs []
  bounded cap (pops ∷ rs) (x ∷ xs) = (true, some x) ∷ bounded cap rs xs

  emplace-max_size : (q : Ring T) (x : T) → (emplace q x).1.max_size ≡ q.max_size
  unfolding emplace
  emplace-max_size q x = elim (Bool-cases ((q.tail + 1) % q.max_size == q.head)) [
    | inl y ↦ rw (y, emplace) refl
    | inr n ↦ rw (n, emplace) refl
  ]

  pop-max_size : (q : Ring T) → (pop q).2.max_size ≡ q.max_size
  unfolding pop
  pop-max_size q = elim (Bool-cases (q.head == q.tail)) [
    | inl y ↦ rw (y, pop) refl
    | inr n ↦ rw (n, pop) refl
  ]

  answers_lem :
      (cap : ℕ) (rs : List (Request T)) (q : Ring T) (xs : List T)
      → q.max_size ≡ cap + 1
      → Holds q xs
      → answers rs q ≡ bounded cap rs xs
  unfolding answers bounded
  answers_lem cap [] q xs m h = refl
  answers_lem cap (emplaces x ∷ rs) q xs m h = elim (emplace-Holds q xs x h) [
    | inl (room, took, h') ↦
        let below : ltb (length xs) cap ≡ true = ground (arith, room, m) in
        rw (below, took)
          (ap (λ r. (true, none) ∷ r)
            (answers_lem cap rs (emplace q x).1 (xs ++ x ∷ []) (emplace-max_size q x ∙ m) h'))
    | inr (full, stays) ↦
        let above : ltb (length xs) cap ≡ false = ground (arith, full, m) in
        rw (above, stays) (ap (λ r. (false, none) ∷ r) (answers_lem cap rs q xs m h))
  ]
  answers_lem cap (pops ∷ rs) q [] m h =
      rw (pop_empty q h) (ap (λ r. (false, none) ∷ r) (answers_lem cap rs q [] m h))
  answers_lem cap (pops ∷ rs) q (x ∷ xs) m h =
      let (took, given, h') = pop-Holds q x xs h in
      rw (took, given)
        (ap (λ r. (true, some x) ∷ r) (answers_lem cap rs (pop q).2 xs (pop-max_size q ∙ m) h'))

  -- Whatever is called on a new ring for `cap` elements, in whatever order, every call returns what
  -- it does on a first-in first-out queue that refuses an element when it holds `cap`.
  pub answers-bounded : (cap : ℕ) (rs : List (Request T)) → answers rs (new cap) ≡ bounded cap rs []
  unfolding new
  answers-bounded cap rs = answers_lem cap rs (new cap) [] refl (new-Holds cap)
