-- ===== src/Session/Echo.antt =====
-- What a peer sees of the session.
use cxx.Common.{
  ◌%◌, ◌-◌, ltb, suc, if-false, ℕ, ◌≡◌, List, ◌+◌, ◌*◌, ◌≤◌, ◌<◌, ◌≢◌, subst, sym, ap, arith, ◌∙◌,
  false, [], ◌∷◌, refl, length, drop,
}
use cxx.Session.Rounds.{head_copied}
use cxx.Session.{MsgNode, Session, new, exception}
use cxx.Session.HandleRead.{
  from_network, head_done, body_round, handle_read, round, throws, head_round,
}
use cxx.Session.Turns.{Repr}
use cxx.Session.Reads.{loop-next}
use cxx.Session.Streams.{
  Chunk, stream, read_all, read_all_lem, EchoesTo, Echoes, IsReading, AllShort, wires,
  wires-feed_all,
}
use cxx.Session.Frame.{idle, feed_all}

-- A new session waits for the first byte of a message.
pub new-Repr : Repr idle new
unfolding new
new-Repr = (
  refl,
  record { junk = 0 ∷ 0 ∷ 0 ∷ []; count = refl; size = refl; bytes = refl; room = omega arith },
)

-- Messages of at most 2048 bytes that a peer sends one after another, cut into chunks in any way,
-- reach an idle session as these messages: it queues each of them for the echo, in order, writes
-- nothing else, and is idle again.
pub echo_wires :
    (s : Session) (ms : List (List ℕ)) (cs : List Chunk)
    → Repr idle s
    → AllShort ms
    → stream cs ≡ wires ms
    → Echoes s idle ms (read_all s cs)
echo_wires s ms cs r h e =
    let parsed : feed_all idle (stream cs) ≡ (idle, ms) =
      ap (feed_all idle) e ∙ wires-feed_all ms h in
    subst (λ t. EchoesTo s t (read_all s cs)) parsed
      (read_all_lem idle s cs r (subst (λ t. IsReading t.0) (sym parsed) tt))

negative_head :
    (s : Session) (head : MsgNode) (rest : List ℕ) (n : ℕ)
    → from_network head.bytes ≡ n
    → 32768 ≤ n
    → n < 65536
    → n ≢ 65535
    → head_done s head rest ≡ throws
negative_head s head rest n w h l e = ground arith

negative_round :
    (s : Session) (hi lo : ℕ) (rest : List ℕ)
    → Repr idle s
    → 128 ≤ hi
    → hi < 256
    → lo < 256
    → hi * 256 + lo ≢ 65535
    → head_round s (hi ∷ lo ∷ rest) ≡ throws
negative_round s hi lo rest (q, fi) h h' l n =
    let head = s.recv_head_node in
    let len : ℕ = (hi * 256 + lo) % 65536 in
    let test : ltb (suc (suc (length rest)) + head.cur_len) 2 ≡ false = ground (arith, fi.count) in
    let remain : 2 - head.cur_len ≡ 2 = omega (arith, fi.count) in
    let (bytes, copied, z, w) = head_copied head [] (hi ∷ lo ∷ []) fi (omega arith) in
    let read : from_network bytes ≡ len = w in
    rw (test, remain, copied, head_round)
      (negative_head s (record head { bytes = bytes }) (drop (2 - head.cur_len) (hi ∷ lo ∷ rest))
        len read (omega arith) (omega arith) (omega arith))

-- A length with its high bit set, other than 0xffff, passes the test against MAX_LENGTH, since a
-- short is signed, and the allocation of the message throws: no handler catches it, and it leaves
-- io_context::run.
pub negative_length :
    (s : Session) (hi lo : ℕ) (rest : List ℕ)
    → Repr idle s
    → 128 ≤ hi
    → hi < 256
    → lo < 256
    → hi * 256 + lo ≢ 65535
    → handle_read s false (hi ∷ lo ∷ rest) ≡ exception
unfolding handle_read
negative_length s hi lo rest (q, fi) h h' l n =
    let turn : round s (hi ∷ lo ∷ rest) ≡ throws =
      unfold round in
      (if-false s.b_head_parse (body_round s (hi ∷ lo ∷ rest)) (head_round s (hi ∷ lo ∷ rest)) q
        ∙ negative_round s hi lo rest (q, fi) h h' l n) in
    let rounds : suc (suc (length rest)) + 1 ≡ suc (length rest + 2) = omega arith in
    rw rounds (loop-next (length rest + 2) s hi (lo ∷ rest) [] ∙ rw turn)
