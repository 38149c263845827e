-- ===== src/Session/Frame/Begins.antt =====
-- What a length and the bytes behind it lead to.
use cxx.Common.{
  ℕ, zero, suc, ◌+◌, ◌≤◌, ◌<◌, ◌≡◌, refl, subst, List, [], ◌∷◌, ◌++◌, arith, length, take, drop,
  length-take, take-append-drop,
}
use cxx.Session.Frame.{Frame, idle, body, refused, undefined, begin, after, feed_all}
use cxx.Session.Frame.Runs.{
  feed_all-append, feed_all-part, feed_all-whole, feed_all-refused, feed_all-undefined,
}

-- The rest of a message, and what follows it.
pub body_whole :
    (n k : ℕ) (got rest : List ℕ)
    → length got < n
    → length got + k ≡ n
    → k ≤ length rest
    → feed_all (body n got) rest ≡ after ((got ++ take k rest) ∷ []) (feed_all idle (drop k rest))
body_whole n k got rest h e l =
    let split : feed_all (body n got) (take k rest ++ drop k rest)
        ≡ after ((got ++ take k rest) ∷ []) (feed_all idle (drop k rest)) =
      rw
        (
          feed_all-append (body n got) (take k rest) (drop k rest),
          feed_all-whole n got (take k rest) (omega (arith, length-take k rest l)) h,
        )
        refl in
    subst
      (λ r.
        feed_all (body n got) r ≡ after ((got ++ take k rest) ∷ []) (feed_all idle (drop k rest)))
      (take-append-drop k rest) split

abbrev pub begun : ℕ → List ℕ → Frame × List (List ℕ)
begun n rest = after (begin n).1 (feed_all (begin n).0 rest)

pub begun_part :
    (n : ℕ) (rest : List ℕ) → n < 2049 → length rest < n → begun n rest ≡ (body n rest, [])
begun_part n rest h l = ground (arith, feed_all-part n [] rest)

pub begun_whole :
    (n : ℕ) (rest : List ℕ)
    → n < 2049
    → n ≤ length rest
    → begun n rest ≡ after (take n rest ∷ []) (feed_all idle (drop n rest))
begun_whole zero rest h l = refl
begun_whole (suc n) rest h l = ground (arith, body_whole (suc n) (suc n) [] rest)

pub begun_refused : (n : ℕ) (rest : List ℕ) → 2048 < n → n < 32768 → begun n rest ≡ (refused, [])
begun_refused n rest h l = ground (arith, feed_all-refused rest)

pub begun_undefined : (n : ℕ) (rest : List ℕ) → 32767 < n → begun n rest ≡ (undefined, [])
begun_undefined n rest h = ground (arith, feed_all-undefined rest)
