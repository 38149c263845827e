-- ===== src/Session/Turns.antt =====
-- One round of the read loop against the frames.
use cxx.Common.{
  ℕ, ◌≤◌, ◌<◌, ◌≡◌, refl, ap, true, false, some, List, [], ◌∷◌, ◌++◌, arith, length, set, leb,
  set-append, length-append, ◌≢◌,
}
use cxx.Session.{MsgNode, Session, read_some, clear_session, clear}
use cxx.Session.HandleRead.{Round, stop, resume, echo}
use cxx.Session.Node.{Filled, Sized, clear_lem}
use cxx.Session.Outbox.{post, send_lem}
use cxx.Session.Frame.{Frame, idle, half, body, refused, undefined, after, feed_all}

-- The session is where the frame says.
abbrev pub Repr : Frame → Session → Type 0
Repr idle s = (s.b_head_parse ≡ false) × Filled s.recv_head_node 2 []
Repr (half hi) s = (s.b_head_parse ≡ false) × Filled s.recv_head_node 2 (hi ∷ [])
Repr (body n got) s =
    (s.b_head_parse ≡ true)
    × Sized s.recv_head_node 2
    × (m : MsgNode) × (s.recv_msg_node ≡ some m)
    × Filled m n got
    × (length got < n)
    × (n < 2049)
Repr refused s = Unit
Repr undefined s = ⊥

-- The part of a session that reading leaves alone.
abbrev pub Same : Session → Session → Type 0
Same s s' = (s'.send_que ≡ s.send_que) × (s'.b_close ≡ s.b_close)

abbrev pub Posted : List ℕ → Session → Session → Type 0
Posted m s s' = (s'.send_que ≡ (post s.send_que m).0) × (s'.b_close ≡ s.b_close)

-- What a round does with bytes that lead from a frame to others.
pub data Turns (f : Frame) (s : Session) (rest : List ℕ) (r : Round) : Type 0 where
  waits :
      (f' : Frame) (s' : Session)
      → feed_all f rest ≡ (f', [])
      → f' ≢ refused
      → Repr f' s'
      → Same s s'
      → r ≡ stop s' (read_some ∷ [])
      → Turns f s rest r
  refuses :
      (s' : Session)
      → feed_all f rest ≡ (refused, [])
      → Same s s'
      → r ≡ stop s' (clear_session ∷ [])
      → Turns f s rest r
  leaves : feed_all f rest ≡ (undefined, []) → Turns f s rest r
  completes :
      (m rest' : List ℕ) (s' : Session)
      → feed_all f rest ≡ after (m ∷ []) (feed_all idle rest')
      → length rest' < length rest
      → Repr idle s'
      → Posted m s s'
      → r ≡ resume s' (post s.send_que m).1 rest'
      → Turns f s rest r

-- A node that holds a whole message is terminated and echoed, and the session is idle.
pub echo_lem :
    (s : Session) (n : MsgNode) (m rest : List ℕ)
    → Filled n (length m) m
    → length m ≤ 2048
    → Sized s.recv_head_node 2
    → (s' : Session) × (echo s n rest ≡ resume s' (post s.send_que m).1 rest)
      × Repr idle s'
      × Posted m s s'
echo_lem s n m rest f h z =
    let ended : leb (length n.bytes) n.total_len ≡ false =
      ground (arith, ap length f.bytes, f.size, f.room, length-append m f.junk) in
    let whole : set n.bytes n.total_len 0 ≡ m ++ 0 ∷ [] =
      rw (f.bytes, f.size) (set-append m f.junk 0 (omega (arith, f.room))) in
    let node : MsgNode = record {
      cur_len = n.cur_len;
      total_len = length m;
      bytes = m ++ 0 ∷ [];
    } in
    let s₁ : Session = record s { recv_msg_node = some node } in
    (
      record s₁ {
        send_que = (post s.send_que m).0;
        b_head_parse = false;
        recv_head_node = clear s.recv_head_node;
      },
      rw (ended, whole, f.size, send_lem s₁ m (0 ∷ []) h),
      (refl, clear_lem s.recv_head_node 2 z),
      (refl, refl),
    )
