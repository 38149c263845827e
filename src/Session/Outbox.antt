-- ===== src/Session/Outbox.antt =====
-- Send and HandleWrite against a queue of whole messages.
use cxx.Common.{
  ℕ, suc, ◌+◌, ◌%◌, ◌≤◌, ◌≡◌, refl, List, [], ◌∷◌, ◌++◌, arith, length, take-append, ltb,
  if◌then◌else◌,
}
use cxx.Session.{
  MsgNode, Session, Effect, write, send_node, write_front, send, to_network, max_sendque, short_mod,
}

-- The bytes of a message on the wire.
abbrev pub wire : List ℕ → List ℕ
wire m = to_network (length m) ++ m

-- The node that Send makes of a message.
abbrev pub packed : List ℕ → MsgNode
packed m = record { cur_len = 0; total_len = length m + 2; bytes = wire m ++ 0 ∷ [] }

-- The queue after a message, and the write that it starts: none behind another message, and none
-- where more than 1000 messages wait already, which loses the message.
abbrev pub post : List MsgNode → List ℕ → List MsgNode × List Effect
post [] m = (packed m ∷ [], write (wire m) ∷ [])
post (n ∷ q) m =
    if ltb max_sendque (length (n ∷ q)) then (n ∷ q, []) else (n ∷ q ++ packed m ∷ [], [])

send_node_lem : (m tail : List ℕ) → length m ≤ 2048 → send_node (m ++ tail) (length m) ≡ packed m
send_node_lem m tail h =
    let e : (length m + 2) % short_mod ≡ length m + 2 = omega arith in rw (e, take-append m tail)

pub write_front_lem :
    (m : List ℕ) (q : List MsgNode) → write_front (packed m ∷ q) ≡ write (wire m) ∷ []
write_front_lem m q =
    let e : length m + 2 ≡ suc (suc (length m)) = omega arith in rw (e, take-append m (0 ∷ []))

-- Send on a buffer that begins with a message of at most 2048 bytes: it queues the message with
-- its length prefix, starts the write if the queue was empty, and drops the message if more than
-- 1000 wait.
pub send_lem :
    (s : Session) (m tail : List ℕ)
    → length m ≤ 2048
    → send s (m ++ tail) (length m)
      ≡ (record s { send_que = (post s.send_que m).0 }, (post s.send_que m).1)
unfolding send
send_lem s m tail h = by_queue s.send_que refl
  where
    by_queue :
        (q : List MsgNode)
        → s.send_que ≡ q
        → send s (m ++ tail) (length m)
          ≡ (record s { send_que = (post s.send_que m).0 }, (post s.send_que m).1)
    by_queue [] e = ground (arith, send_node_lem m tail h, write_front_lem m [])
    by_queue (n ∷ q) e = ground (arith, send_node_lem m tail h, write_front_lem m [])
