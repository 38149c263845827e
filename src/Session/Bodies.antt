-- ===== src/Session/Bodies.antt =====
-- What the rounds of the read loop do with the bytes of a message.
use cxx.Common.{
  ◌||◌, ℕ, ◌+◌, ◌-◌, ◌≤◌, ◌<◌, ◌≡◌, ◌∙◌, sym, refl, true, false, some, List, [], ◌∷◌, ◌++◌, arith,
  length, take, drop, ltb, length-append, length-take, length-drop, dec_lt, subst,
}
use cxx.Session.{MsgNode, Session, negative}
use cxx.Session.HandleRead.{partial_body, full_body, fewer_than, open_body, body_round}
use cxx.Session.Node.{Filled, Sized, append_to_lem, recv_node_lem}
use cxx.Session.Turns.{Turns, waits, completes, echo_lem}
use cxx.Session.Frame.{Frame, idle, body, after, feed_all}
use cxx.Session.Frame.Begins.{body_whole, begun, begun_part, begun_whole}
use cxx.Session.Frame.Runs.{feed_all-part}

-- A message of which some bytes are there, and too few have come.
partial_body-Turns :
    (f : Frame) (s : Session) (n : MsgNode) (total : ℕ) (chunk got rest : List ℕ)
    → Filled n total got
    → length got + length rest < total
    → total < 2049
    → Sized s.recv_head_node 2
    → feed_all f chunk ≡ (body total (got ++ rest), [])
    → Turns f s chunk (partial_body s n rest)
partial_body-Turns f s n total chunk got rest fi h k z e =
    let (n', copied, fi') = append_to_lem n total got rest fi (omega arith) (omega arith) in
    waits (body total (got ++ rest)) (record s { recv_msg_node = some n'; b_head_parse = true }) e
      (λ c. cc) (refl, z, n', refl, fi', omega (arith, length-append got rest), k) (refl, refl)
      (rw (copied, partial_body))

-- A message of which the missing bytes have come.
full_body-Turns :
    (f : Frame) (s : Session) (n : MsgNode) (total count : ℕ) (chunk got rest : List ℕ)
    → Filled n total got
    → length got + count ≡ total
    → count ≤ length rest
    → length (drop count rest) < length chunk
    → total < 2049
    → Sized s.recv_head_node 2
    → feed_all f chunk ≡ after ((got ++ take count rest) ∷ []) (feed_all idle (drop count rest))
    → Turns f s chunk (full_body s n count rest)
full_body-Turns f s n total count chunk got rest fi t h l k z e =
    let taken = length-take count rest h in
    let (n', copied, fi') =
      append_to_lem n total got (take count rest) fi (omega arith) (omega arith) in
    let size : total ≡ length (got ++ take count rest) =
      omega (arith, length-append got (take count rest)) in
    let whole : Filled n' (length (got ++ take count rest)) (got ++ take count rest) =
      subst (λ t. Filled n' t (got ++ take count rest)) size fi' in
    let (s', done, r, p) =
      echo_lem s n' (got ++ take count rest) (drop count rest) whole (omega arith) z in
    completes (got ++ take count rest) (drop count rest) s' e l r p (rw (copied, full_body) done)

-- A head that is not refused.
pub open_body-Turns :
    (f : Frame) (s : Session) (chunk rest : List ℕ) (n : ℕ)
    → n < 2049
    → length rest < length chunk
    → Sized s.recv_head_node 2
    → feed_all f chunk ≡ begun n rest
    → Turns f s chunk (open_body s rest n)
open_body-Turns f s chunk rest n h l z e =
    let (m, made, fi) = recv_node_lem n (omega arith) in
    elim (dec_lt (length rest) n) [
      | yes few ↦
          let test : fewer_than rest (negative n) n ≡ true = ground arith in
          rw (made, open_body, test)
            (partial_body-Turns f s m n chunk [] rest fi (omega arith) h z
              (e ∙ begun_part n rest h few))
      | no many ↦
          let test : fewer_than rest (negative n) n ≡ false = ground arith in
          rw (made, open_body, test)
            (full_body-Turns f s m n n chunk [] rest fi (omega arith) (omega arith)
              (omega (arith, length-drop n rest)) h z (e ∙ begun_whole n rest h (omega arith)))
    ]

-- Bytes for a message that has begun.
pub body_round-Turns :
    (s : Session) (n : ℕ) (m : MsgNode) (got chunk : List ℕ)
    → Sized s.recv_head_node 2
    → s.recv_msg_node ≡ some m
    → Filled m n got
    → length got < n
    → n < 2049
    → 0 < length chunk
    → Turns (body n got) s chunk (body_round s chunk)
body_round-Turns s n m got chunk z there fi l k p =
    let signed : (negative m.total_len || ltb m.total_len m.cur_len) ≡ false =
      ground (arith, fi.size, fi.count) in
    let remain : m.total_len - m.cur_len ≡ n - length got = omega (arith, fi.size, fi.count) in
    elim (dec_lt (length chunk) (n - length got)) [
      | yes few ↦
          let test : fewer_than chunk (negative m.total_len || ltb m.total_len m.cur_len)
                (m.total_len - m.cur_len)
              ≡ true =
            ground (arith, signed, remain) in
          subst (Turns (body n got) s chunk) (sym (rw (there, body_round, test))) (
            partial_body-Turns (body n got) s m n chunk got chunk fi (omega arith) k z
              (feed_all-part n got chunk (omega arith)))
      | no many ↦
          let test : fewer_than chunk (negative m.total_len || ltb m.total_len m.cur_len)
                (m.total_len - m.cur_len)
              ≡ false =
            ground (arith, signed, remain) in
          subst (Turns (body n got) s chunk) (sym (rw (there, body_round, test, remain))) (
            full_body-Turns (body n got) s m n (n - length got) chunk got chunk fi (omega arith)
              (omega arith) (omega (arith, length-drop (n - length got) chunk)) k z
              (body_whole n (n - length got) got chunk l (omega arith) (omega arith)))
    ]
