-- ===== src/Session/Rounds.antt =====
-- Every round of the read loop does what the frames say.
use native.Mathlib.Nat.{add-zero}
use cxx.Common.{
  ◌&&◌, not, take-append, drop-append, if-true, if-false, ℕ, ◌+◌, ◌-◌, ◌≤◌, ◌<◌, ◌≡◌, ◌∙◌, sym,
  refl, ap, true, false, some, List, [], ◌∷◌, ◌++◌, arith, length, take, drop, ltb, length-append,
  length-drop, dec_lt, subst, not, take-append, ◌≢◌, drop-append,
}
use cxx.Session.{MsgNode, Session, memcpy, negative, max_length}
use cxx.Session.HandleRead.{Round, round, head_done, head_round, body_round, from_network}
use cxx.Session.Node.{Filled, Sized, append_to_lem, memcpy_lem}
use cxx.Session.Turns.{Repr, Turns, waits, refuses, leaves, completes}
use cxx.Session.Frame.{Frame, idle, half, body, refused, undefined, feed_all}
use cxx.Session.Frame.Begins.{begun, begun_refused, begun_undefined}
use cxx.Session.Bodies.{open_body-Turns, body_round-Turns}

-- Turns speaks of the queue and of the flag only.
Turns-head :
    {f : Frame} {chunk : List ℕ} {r : Round} (s : Session) (head : MsgNode)
    → Turns f (record s { recv_head_node = head }) chunk r
    → Turns f s chunk r
Turns-head s head (waits f' s' e o r same q) = waits f' s' e o r same q
Turns-head s head (refuses s' e same q) = refuses s' e same q
Turns-head s head (leaves e) = leaves e
Turns-head s head (completes m rest s' e l r p q) = completes m rest s' e l r p q

-- A head that has been read whole.
head_done-Turns :
    (f : Frame) (s : Session) (head : MsgNode) (chunk rest : List ℕ) (n : ℕ)
    → from_network head.bytes ≡ n
    → length rest < length chunk
    → Sized head 2
    → feed_all f chunk ≡ begun n rest
    → Turns f s chunk (head_done s head rest)
head_done-Turns f s head chunk rest n w l z e = elim (dec_lt n 2049) [
  | yes small ↦
      let test : (not (negative n) && ltb max_length n) ≡ false = ground arith in
      rw (w, head_done, test)
        (Turns-head s head
          (open_body-Turns f (record s { recv_head_node = head }) chunk rest n small l z e))
  | no large ↦ elim (dec_lt n 32768) [
    | yes positive ↦
        let test : (not (negative n) && ltb max_length n) ≡ true = ground arith in
        refuses (record s { recv_head_node = head })
          (e ∙ begun_refused n rest (omega arith) positive) (refl, refl) (rw (w, head_done, test))
    | no huge ↦ leaves (e ∙ begun_undefined n rest (omega arith))
  ]
]

from_network-append : (xs ys : List ℕ) → length xs ≡ 2 → from_network (xs ++ ys) ≡ from_network xs
from_network-append [] ys h = absurd (omega arith)
from_network-append (x ∷ []) ys h = absurd (omega arith)
from_network-append (x ∷ y ∷ xs) ys h = refl

-- The bytes of a head, copied whole.
pub head_copied :
    (head : MsgNode) (got src : List ℕ)
    → Filled head 2 got
    → length got + length src ≡ 2
    → (bytes : List ℕ) × (memcpy head.bytes head.cur_len src ≡ some bytes)
      × Sized (record head { bytes = bytes }) 2
      × (from_network bytes ≡ from_network (got ++ src))
head_copied head got src fi h =
    let bytes : List ℕ = (got ++ src) ++ drop (length src) fi.junk in
    (
      bytes,
      rw (fi.bytes, fi.count) (memcpy_lem got fi.junk src (omega (arith, fi.room))),
      record {
        size = fi.size;
        room = omega (
          arith,
          fi.room,
          length-append (got ++ src) (drop (length src) fi.junk),
          length-append got src,
          length-drop (length src) fi.junk,
        );
      },
      from_network-append (got ++ src) (drop (length src) fi.junk)
          (omega (arith, length-append got src)),
    )

-- The bytes that make the head whole have come.
head_whole-Turns :
    (f : Frame) (s : Session) (chunk got src rest : List ℕ)
    → Filled s.recv_head_node 2 got
    → length got + length src ≡ 2
    → 1 ≤ length src
    → chunk ≡ src ++ rest
    → feed_all f chunk ≡ begun (from_network (got ++ src)) rest
    → Turns f s chunk (head_round s chunk)
head_whole-Turns f s chunk got src rest fi h p c e =
    let head = s.recv_head_node in
    let size : length chunk ≡ length src + length rest = ap length c ∙ length-append src rest in
    let remain : 2 - head.cur_len ≡ length src = omega (arith, fi.count) in
    let test : ltb (length chunk + head.cur_len) 2 ≡ false = ground (arith, fi.count) in
    let front : take (2 - head.cur_len) chunk ≡ src = rw (remain, c) (take-append src rest) in
    let back : drop (2 - head.cur_len) chunk ≡ rest =
      rw (remain, c)
        (ap (λ n. drop n (src ++ rest)) (sym (add-zero (length src))) ∙ drop-append 0 src rest) in
    let (bytes, copied, z, w) = head_copied head got src fi h in
    rw (test, front, copied, back, head_round)
      (head_done-Turns f s (record head { bytes = bytes }) chunk rest (from_network (got ++ src)) w
        (omega arith) z e)

-- The first byte of a head has come alone.
head_part-Turns :
    (s : Session) (b : ℕ)
    → s.b_head_parse ≡ false
    → Filled s.recv_head_node 2 []
    → Turns idle s (b ∷ []) (head_round s (b ∷ []))
unfolding feed_all
head_part-Turns s b q fi =
    let (head', copied, fi') =
      append_to_lem s.recv_head_node 2 [] (b ∷ []) fi (omega arith) (omega arith) in
    let test : ltb (1 + s.recv_head_node.cur_len) 2 ≡ true = ground (arith, fi.count) in
    waits (half b) (record s { recv_head_node = head' }) refl (λ c. cc) (q, fi') (refl, refl)
      (rw (test, copied, head_round))

heading :
    (f : Frame) (s : Session) (chunk : List ℕ)
    → s.b_head_parse ≡ false
    → Turns f s chunk (head_round s chunk)
    → Turns f s chunk (round s chunk)
unfolding round
heading f s chunk q t =
    subst (Turns f s chunk)
      (sym (if-false s.b_head_parse (body_round s chunk) (head_round s chunk) q)) t

-- Every round of the read loop at a frame does what the frames say: it waits for more, refuses a
-- length above 2048, or completes a message and goes on with fewer bytes, unless the bytes lead
-- to a length that is negative as a short, of which nothing is said.
pub round-Turns :
    (f : Frame) (s : Session) (b : ℕ) (rest : List ℕ)
    → f ≢ refused
    → Repr f s
    → Turns f s (b ∷ rest) (round s (b ∷ rest))
unfolding round feed_all
round-Turns idle s b [] o (q, fi) = heading idle s (b ∷ []) q (head_part-Turns s b q fi)
round-Turns idle s b (c ∷ rest) o (q, fi) = heading idle s (b ∷ c ∷ rest) q (
    head_whole-Turns idle s (b ∷ c ∷ rest) [] (b ∷ c ∷ []) rest fi (omega arith) (omega arith) refl
      refl)
round-Turns (half hi) s b rest o (q, fi) = heading (half hi) s (b ∷ rest) q (
    head_whole-Turns (half hi) s (b ∷ rest) (hi ∷ []) (b ∷ []) rest fi (omega arith) (omega arith)
      refl refl)
round-Turns (body n got) s b rest o (q, z, m, there, fi, l, k) =
    subst (Turns (body n got) s (b ∷ rest))
      (sym (if-true s.b_head_parse (body_round s (b ∷ rest)) (head_round s (b ∷ rest)) q))
      (body_round-Turns s n m got (b ∷ rest) z there fi l k (omega arith))
round-Turns refused s b rest o r = absurd (o refl)
round-Turns undefined s b rest o r = absurd r
