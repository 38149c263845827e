-- ===== src/Session/Frame.antt =====
-- The wire format that the session reads, one byte at a time: two bytes of length, high byte first,
-- and as many bytes of message. Independent of the session's code.
pub mod Runs
pub mod Begins
use cxx.Common.{ℕ, ◌+◌, ◌*◌, List, [], ◌∷◌, ◌++◌, length, ltb, ◌==◌, if◌then◌else◌, ◌%◌}

pub data Frame : Type 0 where
  idle : Frame
  half : ℕ → Frame  -- the high byte of a length
  body : ℕ → List ℕ → Frame  -- the length, and the bytes so far
  refused : Frame  -- a length above 2048
  undefined : Frame  -- a length that is negative as a short

-- What a length does.
abbrev pub begin : ℕ → Frame × List (List ℕ)
begin n =
    if n == 0
    then (idle, [] ∷ [])
    else if ltb n 2049
    then (body n [], [])
    else if ltb n 32768
    then (refused, [])
    else (undefined, [])

-- The frame after a byte, and the message that it completes.
unfoldable pub feed : Frame → ℕ → Frame × List (List ℕ)
feed idle b = (half b, [])
feed (half hi) b = begin ((hi * 256 + b) % 65536)
feed (body n got) b =
    if length got + 1 == n then (idle, (got ++ b ∷ []) ∷ []) else (body n (got ++ b ∷ []), [])
feed refused b = (refused, [])
feed undefined b = (undefined, [])

abbrev pub after : List (List ℕ) → Frame × List (List ℕ) → Frame × List (List ℕ)
after ms (f, more) = (f, ms ++ more)

unfoldable pub feed_all : Frame → List ℕ → Frame × List (List ℕ)
unfolding feed
feed_all f [] = (f, [])
feed_all f (b ∷ bs) = let (f', ms) = feed f b in after ms (feed_all f' bs)
