-- ===== src/Session/Posts.antt =====
-- The messages that a read echoes, in the order of the writes.
use cxx.Common.{
  ℕ, ◌+◌, ◌≤◌, ◌≡◌, ◌∙◌, refl, sym, ap, subst, false, List, [], ◌∷◌, ◌++◌, map, append_assoc,
  append-nil, arith, length, length-append, length-map, ltb,
}
use cxx.Session.{Session, Effect, max_sendque}
use cxx.Session.Outbox.{wire, packed, post}
use cxx.Session.Reads.{post_all}
use cxx.Session.Streams.{writes, writes-append}
use cxx.Session.Writes.{Exchange, after_send, accept, IsOrdered, posted-IsOrdered}

pub pending_le :
    (x : Exchange) (accepted : List (List ℕ)) (v : IsOrdered x accepted)
    → length v.pending ≤ length accepted
pending_le x accepted v = omega (
  arith,
  length-append x.completed (map wire v.pending),
  length-map wire v.pending,
  length-map wire accepted,
  ap length v.order,
)

-- Below 1001 messages none is dropped.
accept_lem :
    (x : Exchange) (accepted : List (List ℕ)) (m : List ℕ)
    → IsOrdered x accepted
    → length accepted ≤ 1000
    → accept x accepted m ≡ accepted ++ m ∷ []
accept_lem x accepted m v h =
    let room : ltb max_sendque (length x.session.send_que) ≡ false =
      ground (arith, ap length v.queue, length-map packed v.pending, pending_le x accepted v, h) in
    rw room refl

-- Messages that are echoed one after another
pub post_all-IsOrdered :
    (ms : List (List ℕ)) (x : Exchange) (s : Session) (accepted : List (List ℕ)) (out : List Effect)
    → s.send_que ≡ (post_all x.session.send_que ms).0
    → writes out ≡ writes (post_all x.session.send_que ms).1
    → length accepted + length ms ≤ 1001
    → IsOrdered x accepted
    → IsOrdered (after_send x (s, out)) (accepted ++ ms)
post_all-IsOrdered [] x s accepted out q w h v = record {
  pending = v.pending;
  queue = q ∙ v.queue;
  front = ap (λ t. x.outstanding ++ t) w ∙ append-nil x.outstanding ∙ v.front;
  order = v.order ∙ ap (map wire) (sym (append-nil accepted));
  room = v.room;
}
post_all-IsOrdered (m ∷ ms) x s accepted out q w h v =
    let first = (post x.session.send_que m).1 in
    let x₁ : Exchange =
      after_send x (record x.session { send_que = (post x.session.send_que m).0 }, first) in
    let v₁ : IsOrdered x₁ (accepted ++ m ∷ []) =
      subst (IsOrdered x₁) (accept_lem x accepted m v (omega (arith, h)))
        (posted-IsOrdered x x₁.session accepted m refl v) in
    let rest = (post_all x₁.session.send_que ms).1 in
    let v₂ =
      post_all-IsOrdered ms x₁ s (accepted ++ m ∷ []) rest q refl
        (omega (arith, h, length-append accepted (m ∷ []))) v₁ in
    let same : (x.outstanding ++ writes first) ++ writes rest ≡ x.outstanding ++ writes out =
      append_assoc x.outstanding (writes first) (writes rest)
      ∙ ap (λ t. x.outstanding ++ t) (sym (writes-append first rest) ∙ sym w) in
    subst (IsOrdered (after_send x (s, out))) (append_assoc accepted (m ∷ []) ms) (
      subst
        (λ t. IsOrdered (record x { session = s; outstanding = t }) ((accepted ++ m ∷ []) ++ ms))
        same v₂)
