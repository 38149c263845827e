-- ===== src/Server/World/Writing.antt =====
-- The writes of a session, those that fail included: the queue behind the write that is outstanding.
use cxx.Common.{
  ℕ, ◌≡◌, ◌∙◌, refl, sym, ap, subst, Bool, false, Option, none, some, List, [], ◌∷◌, ◌++◌,
  append_assoc, append-nil, ◌⊎◌, inl, inr, ltb, length, Bool-cases, suc,
}
use mathlib.Core.Option.{some-injective}
use cxx.Session.{
  MsgNode, Session, Effect, Result, done, fault, handle_write, write_front, max_sendque,
}
use cxx.Session.Outbox.{packed, post}
use cxx.Session.Reads.{post_all}
use cxx.Session.Streams.{writes, writes-append}
use cxx.Session.Writes.{
  Exchange, after_send, complete, after_write as completed, IsOrdered, posted-IsOrdered,
}
use cxx.Server.World.{Peer, write_ends, after_write}

-- The write at the front of the queue has failed: none is outstanding, and none will be started.
pub record IsStuck (x : Exchange) : Type 0 where
  pub first : MsgNode
  pub others : List MsgNode
  pub queue : x.session.send_que ≡ first ∷ others
  pub idle : x.outstanding ≡ []

abbrev pub Writing : Exchange → Type 0
Writing x = ((accepted : List (List ℕ)) × IsOrdered x accepted) ⊎ IsStuck x

stuck_post :
    (first : MsgNode) (others : List MsgNode) (m : List ℕ)
    → (writes (post (first ∷ others) m).1 ≡ [])
      × ((others' : List MsgNode) × ((post (first ∷ others) m).0 ≡ first ∷ others'))
stuck_post first others m = elim (Bool-cases (ltb max_sendque (suc (length others)))) [
  | inl full ↦ rw full (refl, (others, refl))
  | inr room ↦ rw room (refl, (others ++ packed m ∷ [], refl))
]

-- A message that is queued
post-Writing :
    (x : Exchange) (s : Session) (m : List ℕ)
    → s.send_que ≡ (post x.session.send_que m).0
    → Writing x
    → Writing (after_send x (s, (post x.session.send_que m).1))
post-Writing x s m q (inl (accepted, v)) = inl (_, posted-IsOrdered x s accepted m q v)
post-Writing x s m q (inr v) = inr (
    let (f, others) = stuck_post v.first v.others m in
    record {
      first = v.first;
      others = others.0;
      queue = q ∙ ap (λ t. (post t m).0) v.queue ∙ others.1;
      idle = rw (v.idle) (ap (λ t. writes (post t m).1) v.queue ∙ f);
    })

-- The rest of the session does not matter.
pub session-Writing :
    (x : Exchange) (s : Session)
    → s.send_que ≡ x.session.send_que
    → Writing x
    → Writing (record x { session = s })
session-Writing x s q (inl (accepted, v)) = inl (
  accepted,
  record {
    pending = v.pending;
    queue = q ∙ v.queue;
    front = v.front;
    order = v.order;
    room = v.room;
  },
)
session-Writing x s q (inr v) =
    inr (record { first = v.first; others = v.others; queue = q ∙ v.queue; idle = v.idle })

pub post_all-Writing :
    (ms : List (List ℕ)) (x : Exchange) (s : Session) (out : List Effect)
    → s.send_que ≡ (post_all x.session.send_que ms).0
    → writes out ≡ writes (post_all x.session.send_que ms).1
    → Writing x
    → Writing (after_send x (s, out))
post_all-Writing [] x s out q w v =
    subst (λ t. Writing (record x { session = s; outstanding = t }))
      (sym (append-nil x.outstanding) ∙ ap (λ t. x.outstanding ++ t) (sym w))
      (session-Writing x s q v)
post_all-Writing (m ∷ ms) x s out q w v =
    let first = (post x.session.send_que m).1 in
    let x₁ : Exchange =
      after_send x (record x.session { send_que = (post x.session.send_que m).0 }, first) in
    let rest = (post_all x₁.session.send_que ms).1 in
    let same : (x.outstanding ++ writes first) ++ writes rest ≡ x.outstanding ++ writes out =
      append_assoc x.outstanding (writes first) (writes rest)
      ∙ ap (λ t. x.outstanding ++ t) (sym (writes-append first rest) ∙ sym w) in
    subst (λ t. Writing (record x { session = s; outstanding = t })) same
      (post_all-Writing ms x₁ s rest q refl (post-Writing x x₁.session m refl v))

-- HandleWrite by the queue
abbrev pub next_write : Session → List MsgNode → Result
next_write s [] = fault
next_write s (n ∷ rest) = done (record s { send_que = rest }) (write_front rest)

pub next_write_lem : (s : Session) → handle_write s false ≡ next_write s s.send_que
unfolding handle_write
next_write_lem s = by_queue s.send_que refl
  where
    by_queue : (q : List MsgNode) → s.send_que ≡ q → handle_write s false ≡ next_write s s.send_que
    by_queue [] e = rw e refl
    by_queue (n ∷ rest) e = rw e refl

-- The completion of a write that leaves the handler.
pub sent_lem :
    (p : Peer) (outstanding : List (List ℕ)) (y : Exchange)
    → complete p.exchange outstanding ≡ some y
    → write_ends false p outstanding ≡ some (record { exchange = y; reading = p.reading }, false)
sent_lem p [] y h =
    ap (λ x. some (record { exchange = x; reading = p.reading }, false))
      (some-injective p.exchange y h)
sent_lem p (bytes ∷ rest) y h = rw (next_write_lem p.exchange.session) (
    by_queue p.exchange.session.send_que (
      subst (λ r. completed p.exchange bytes rest r ≡ some y) (next_write_lem p.exchange.session)
        h))
  where
    ended : Option Exchange → Option (Peer × Bool)
    ended none = none
    ended (some x) = some (record { exchange = x; reading = p.reading }, false)

    by_queue :
        (q : List MsgNode)
        → completed p.exchange bytes rest (next_write p.exchange.session q) ≡ some y
        → after_write p.reading
            (record p.exchange {
              outstanding = rest;
              completed = p.exchange.completed ++ bytes ∷ [];
            })
            (next_write p.exchange.session q)
          ≡ some (record { exchange = y; reading = p.reading }, false)
    by_queue [] h' = absurd (cc)
    by_queue (n ∷ []) h' = ap ended h'
    by_queue (n ∷ k ∷ q) h' = ap ended h'
