-- ===== src/Session/Frame/Runs.antt =====
-- Runs of bytes through the frames.
use cxx.Common.{
  ℕ, ◌+◌, ◌<◌, ◌≡◌, refl, List, [], ◌∷◌, ◌++◌, append_assoc, append-nil, arith, length,
  length-append,
}
use cxx.Session.Frame.{Frame, idle, body, refused, undefined, feed, after, feed_all}

pub after_assoc :
    (xs ys : List (List ℕ)) (r : Frame × List (List ℕ)) → after xs (after ys r) ≡ after (xs ++ ys) r
after_assoc xs ys (f, ms) = simp append_assoc

-- Bytes that arrive in two parts.
pub feed_all-append :
    (f : Frame) (xs ys : List ℕ)
    → feed_all f (xs ++ ys) ≡ (let (f', ms) = feed_all f xs in after ms (feed_all f' ys))
unfolding feed_all
feed_all-append f [] ys = refl
feed_all-append f (x ∷ xs) ys = rw (feed_all-append (feed f x).0 xs ys) (
    after_assoc (feed f x).1 (feed_all (feed f x).0 xs).1
      (feed_all (feed_all (feed f x).0 xs).0 ys))

-- Less than what is missing of a message.
pub feed_all-part :
    (n : ℕ) (got xs : List ℕ)
    → length got + length xs < n
    → feed_all (body n got) xs ≡ (body n (got ++ xs), [])
unfolding feed_all feed
feed_all-part n got [] h = rw append-nil
feed_all-part n got (x ∷ xs) h = ground (
  arith,
  feed_all-part n (got ++ x ∷ []) xs,
  length-append got (x ∷ []),
  append_assoc got (x ∷ []) xs,
)

-- Exactly what is missing of a message.
pub feed_all-whole :
    (n : ℕ) (got xs : List ℕ)
    → length got + length xs ≡ n
    → length got < n
    → feed_all (body n got) xs ≡ (idle, (got ++ xs) ∷ [])
unfolding feed_all feed
feed_all-whole n got [] h k = absurd (omega arith)
feed_all-whole n got (x ∷ []) h k = ground arith
feed_all-whole n got (x ∷ y ∷ xs) h k = ground (
  arith,
  feed_all-whole n (got ++ x ∷ []) (y ∷ xs),
  length-append got (x ∷ []),
  append_assoc got (x ∷ []) (y ∷ xs),
)

pub feed_all-refused : (xs : List ℕ) → feed_all refused xs ≡ (refused, [])
unfolding feed_all feed
feed_all-refused [] = refl
feed_all-refused (x ∷ xs) = rw (feed_all-refused xs)

pub feed_all-undefined : (xs : List ℕ) → feed_all undefined xs ≡ (undefined, [])
unfolding feed_all feed
feed_all-undefined [] = refl
feed_all-undefined (x ∷ xs) = rw (feed_all-undefined xs)
