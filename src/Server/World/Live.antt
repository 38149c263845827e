-- ===== src/Server/World/Live.antt =====
-- A session that goes on: what its handlers need, and that they keep it.
use cxx.Common.{
  ℕ, ◌≡◌, ◌≢◌, ◌∙◌, refl, sym, ap, subst, Bool, true, false, Option, some, List, [], ◌∷◌, ◌++◌,
  append-nil, append_assoc, map, take, inl, inr, ltb, length, Bool-cases, suc, if◌then◌else◌,
}
use cxx.Session.{MsgNode, Session, Effect, Result, handle_write, close, max_sendque}
use cxx.Session.HandleRead.{handle_read}
use cxx.Session.Outbox.{post, packed, wire}
use cxx.Session.Turns.{Repr}
use cxx.Session.Frame.{Frame, idle, half, body, refused, undefined, feed_all}
use cxx.Session.Frame.Runs.{feed_all-append, feed_all-undefined}
use cxx.Session.Reads.{post_all, last_effect, ReadsTo, handle_read_lem}
use cxx.Session.Streams.{writes, writes-append, writes-last}
use cxx.Session.Writes.{Exchange, after_send, IsOrdered, complete-IsOrdered}
use cxx.Session.Dialogue.{Repr-send_que}
use cxx.Server.World.{
  Peer, PeerEvent, receives, read_fails, sent, write_fails, reads, clears, peer_step, write_ends,
  read_ends, after_read,
}
use cxx.Server.World.Writing.{Writing, post_all-Writing, session-Writing, sent_lem}

-- The bytes that a session receives.
abbrev pub received : List PeerEvent → List ℕ
received [] = []
received (receives b rest ∷ es) = (b ∷ rest) ++ received es
received (read_fails ∷ es) = received es
received (sent ∷ es) = received es
received (write_fails ∷ es) = received es

-- A message that is queued starts no read and does not end the session.
post_quiet :
    (q : List MsgNode) (m : List ℕ) (out : List Effect)
    → (reads ((post q m).1 ++ out) ≡ reads out) × (clears ((post q m).1 ++ out) ≡ clears out)
post_quiet [] m out = (refl, refl)
post_quiet (n ∷ q) m out = elim (Bool-cases (ltb max_sendque (suc (length q)))) [
  | inl full ↦ rw full (refl, refl)
  | inr room ↦ rw room (refl, refl)
]

pub posts_quiet :
    (q : List MsgNode) (ms : List (List ℕ)) (out : List Effect)
    → (reads ((post_all q ms).1 ++ out) ≡ reads out)
      × (clears ((post_all q ms).1 ++ out) ≡ clears out)
posts_quiet q [] out = (refl, refl)
posts_quiet q (m ∷ ms) out =
    let rest = (post_all (post q m).0 ms).1 in
    let first = post_quiet q m (rest ++ out) in
    let others = posts_quiet (post q m).0 ms out in
    rw (append_assoc (post q m).1 rest out) (first.0 ∙ others.0, first.1 ∙ others.1)

-- What a session that goes on has, with the bytes that it will still receive: no length among them
-- is negative, so far as it reads on.
pub record Live (p : Peer) (later : List ℕ) : Type 0 where
  pub writing : Writing p.exchange
  pub reader :
      p.reading ≡ true
      → (f : Frame) × Repr f p.exchange.session × (f ≢ refused) × ((feed_all f later).0 ≢ undefined)

pub record Steps (later : List ℕ) (r : Option (Peer × Bool)) : Type 0 where
  pub last : Peer
  pub cleared : Bool
  pub result : r ≡ some (last, cleared)
  pub live : Live last later

stays : (p : Peer) (later : List ℕ) → Live p later → Steps later (some (p, false))
stays p later v = record { last = p; cleared = false; result = refl; live = v }

-- A session that does not read
silent : (p : Peer) (xs ys : List ℕ) → p.reading ≡ false → Live p xs → Live p ys
silent p xs ys n v = record { writing = v.writing; reader = λ y. absurd (cc) }

first_part :
    (f : Frame) (xs ys : List ℕ)
    → (feed_all f (xs ++ ys)).0 ≢ undefined
    → (feed_all f xs).0 ≢ undefined
first_part f xs ys n e = n (
    ap (λ t. t.0) (feed_all-append f xs ys)
    ∙ ap (λ g. (feed_all g ys).0) e
    ∙ ap (λ t. t.0) (feed_all-undefined ys))

still_reads : (f : Frame) → reads (last_effect f ∷ []) ≡ true → f ≢ refused
still_reads f r e =
    let h : true ≡ false = sym r ∙ ap (λ g. reads (last_effect g ∷ [])) e in absurd (cc)

-- A read
read-Steps :
    (p : Peer) (b : ℕ) (rest later : List ℕ) (q : Frame × List (List ℕ)) (r : Result)
    → Writing p.exchange
    → ReadsTo p.exchange.session q [] r
    → (feed_all q.0 later).0 ≢ undefined
    → Steps later (after_read p.exchange r)
read-Steps p b rest later (f, ms) r w c n =
    let posts = (post_all p.exchange.session.send_que ms).1 in
    let out = posts ++ last_effect f ∷ [] in
    let quiet = posts_quiet p.exchange.session.send_que ms (last_effect f ∷ []) in
    let written_out : writes out ≡ writes posts =
      writes-append posts (last_effect f ∷ [])
      ∙ ap (λ t. writes posts ++ t) (writes-last f)
      ∙ append-nil (writes posts) in
    record {
      last = record { exchange = after_send p.exchange (c.session, out); reading = reads out };
      cleared = clears out;
      result = rw (c.result) refl;
      live = record {
        writing = post_all-Writing ms p.exchange c.session out c.queue written_out w;
        reader = λ y. (f, c.repr, still_reads f (sym quiet.0 ∙ y), n);
      };
    }

by_reading :
    (p : Peer) (error b : Bool) (bytes : List ℕ)
    → p.reading ≡ b
    → read_ends error p bytes ≡ (
        if b
        then after_read p.exchange (handle_read p.exchange.session error bytes)
        else some (p, false))
by_reading p error b bytes h =
    ap
      (λ t.
        if t
        then after_read p.exchange (handle_read p.exchange.session error bytes)
        else some (p, false))
      h

pub receives-Steps :
    (p : Peer) (b : ℕ) (rest later : List ℕ)
    → Live p ((b ∷ rest) ++ later)
    → Steps later (peer_step p (receives b rest))
unfolding peer_step
receives-Steps p b rest later v = elim (Bool-cases p.reading) [
  | inr n ↦
      subst (Steps later) (sym (by_reading p false false (b ∷ rest) n))
        (stays p later (silent p ((b ∷ rest) ++ later) later n v))
  | inl y ↦
      let (f, repr, open_still, n) = v.reader y in
      let defined = first_part f (b ∷ rest) later n in
      subst (Steps later) (sym (by_reading p false true (b ∷ rest) y)) (
        read-Steps p b rest later (feed_all f (b ∷ rest)) _ v.writing
          (handle_read_lem f p.exchange.session b rest open_still repr defined)
          (λ e. n (ap (λ t. t.0) (feed_all-append f (b ∷ rest) later) ∙ e)))
]

-- The session and its queue after an error: closed, as the queue was.
closed-Writing :
    (x : Exchange) (out : List (List ℕ))
    → out ≡ x.outstanding
    → Writing x
    → Writing (record x { session = close x.session; outstanding = out })
closed-Writing x out e w =
    subst (λ t. Writing (record x { session = close x.session; outstanding = t })) (sym e)
      (session-Writing x (close x.session) refl w)

pub read_fails-Steps :
    (p : Peer) (later : List ℕ) → Live p later → Steps later (peer_step p read_fails)
unfolding peer_step handle_read
read_fails-Steps p later v = elim (Bool-cases p.reading) [
  | inr n ↦ subst (Steps later) (sym (by_reading p true false [] n)) (stays p later v)
  | inl y ↦ subst (Steps later) (sym (by_reading p true true [] y)) (record {
    last = _;
    cleared = true;
    result = refl;
    live = record {
      writing =
          closed-Writing p.exchange (p.exchange.outstanding ++ [])
            (append-nil p.exchange.outstanding) v.writing;
      reader = λ r. absurd (cc);
    };
  })
]

idle_write :
    (error : Bool) (p : Peer) (later : List ℕ)
    → p.exchange.outstanding ≡ []
    → Live p later
    → Steps later (write_ends error p p.exchange.outstanding)
idle_write error p later h v =
    subst (Steps later) (sym (ap (write_ends error p) h)) (stays p later v)

-- The completion of a write, which is that of the front of the queue.
ordered_sent :
    (p : Peer) (later : List ℕ) (accepted : List (List ℕ)) (o : IsOrdered p.exchange accepted)
    → Live p later
    → Steps later (write_ends false p p.exchange.outstanding)
ordered_sent p later accepted o v =
    let c = complete-IsOrdered p.exchange accepted o in
    record {
      last = record { exchange = c.exchange; reading = p.reading };
      cleared = false;
      result = sent_lem p p.exchange.outstanding c.exchange c.result;
      live = record {
        writing = inl (accepted, c.ordered);
        reader = λ y.
            let (f, repr, open_still, n) = v.reader y in
            (
              f,
              subst (Repr f) (sym c.session_left) (Repr-send_que f p.exchange.session _ repr),
              open_still,
              n,
            );
      };
    }

pub sent-Steps : (p : Peer) (later : List ℕ) → Live p later → Steps later (peer_step p sent)
unfolding peer_step
sent-Steps p later v = by_writing v.writing
  where
    by_writing : Writing p.exchange → Steps later (write_ends false p p.exchange.outstanding)
    by_writing (inl (accepted, o)) = ordered_sent p later accepted o v
    by_writing (inr s) = idle_write false p later s.idle v

Repr-close : (f : Frame) (s : Session) → Repr f s → Repr f (close s)
Repr-close idle s r = r
Repr-close (half hi) s r = r
Repr-close (body n got) s r = r
Repr-close refused s r = r
Repr-close undefined s r = r

-- The failure of a write, which leaves the rest of the queue where it is.
ordered_fails :
    (p : Peer) (later : List ℕ) (ms : List (List ℕ))
    → p.exchange.session.send_que ≡ map packed ms
    → p.exchange.outstanding ≡ map wire (take 1 ms)
    → Live p later
    → Steps later (write_ends true p p.exchange.outstanding)
unfolding handle_write
ordered_fails p later [] q f v = idle_write true p later f v
ordered_fails p later (m ∷ ms) q f v =
    subst (Steps later) (sym (ap (write_ends true p) f)) (record {
      last = _;
      cleared = true;
      result = refl;
      live = record {
        writing = inr (record { first = packed m; others = map packed ms; queue = q; idle = refl });
        reader = λ y.
            let (f, repr, open_still, n) = v.reader y in
            (f, Repr-close f p.exchange.session repr, open_still, n);
      };
    })

pub write_fails-Steps :
    (p : Peer) (later : List ℕ) → Live p later → Steps later (peer_step p write_fails)
unfolding peer_step
write_fails-Steps p later v = by_writing v.writing
  where
    by_writing : Writing p.exchange → Steps later (write_ends true p p.exchange.outstanding)
    by_writing (inl (accepted, o)) = ordered_fails p later o.pending o.queue o.front v
    by_writing (inr s) = idle_write true p later s.idle v

-- Whatever completes at a session that goes on, the handler returns, and the session goes on.
pub peer_step-Steps :
    (ev : PeerEvent) (es : List PeerEvent) (p : Peer)
    → Live p (received (ev ∷ es))
    → Steps (received es) (peer_step p ev)
peer_step-Steps (receives b rest) es p v = receives-Steps p b rest (received es) v
peer_step-Steps read_fails es p v = read_fails-Steps p (received es) v
peer_step-Steps sent es p v = sent-Steps p (received es) v
peer_step-Steps write_fails es p v = write_fails-Steps p (received es) v
