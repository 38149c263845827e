-- ===== src/Session/Writes.antt =====
-- The writes of a session: sends from any thread, with the completions of the writes in between.
use mathlib.Core.List.{map-append}
use cxx.Common.{
  ℕ, ◌≤◌, ◌≡◌, ◌∙◌, refl, sym, ap, false, Option, none, some, List, [], ◌∷◌, ◌++◌, map,
  append_assoc, order-append, append-nil, arith, length, length-append, length-map, take, drop, ltb,
  if◌then◌else◌, Bool-cases, inl, inr,
}
use cxx.Session.{
  Session, Effect, send, handle_write, Result, done, exception, fault, out_of_fuel, max_sendque,
  write_front, new,
}
use cxx.Session.Outbox.{wire, packed, post, send_lem, write_front_lem}
use cxx.Session.Streams.{writes}

-- A session with its socket: the writes that have been started and not completed, and those that
-- have been completed, both in order.
pub record Exchange : Type 0 where
  pub session : Session
  pub outstanding : List (List ℕ)
  pub completed : List (List ℕ)

-- A Send of a message, with what stands behind it in its buffer, or the completion of the write
-- that was started first.
pub data Event : Type 0 where
  sends : List ℕ → List ℕ → Event
  completes : Event

abbrev pub after_send : Exchange → Session × List Effect → Exchange
after_send x r = record x { session = r.0; outstanding = x.outstanding ++ writes r.1 }

-- `none`: the handler has not returned.
abbrev pub after_write : Exchange → List ℕ → List (List ℕ) → Result → Option Exchange
after_write x bytes rest (done s out) = some (record {
  session = s;
  outstanding = rest ++ writes out;
  completed = x.completed ++ bytes ∷ [];
})
after_write x bytes rest exception = none
after_write x bytes rest fault = none
after_write x bytes rest out_of_fuel = none

-- A completion; without a write that is outstanding there is none.
abbrev pub complete : Exchange → List (List ℕ) → Option Exchange
complete x [] = some x
complete x (bytes ∷ rest) = after_write x bytes rest (handle_write x.session false)

-- The messages that Send has not dropped, with one more that it is called for.
abbrev pub accept : Exchange → List (List ℕ) → List ℕ → List (List ℕ)
accept x accepted m =
    if ltb max_sendque (length x.session.send_que) then accepted else accepted ++ m ∷ []

unfoldable pub events : List Event → Exchange → List (List ℕ) → Option (Exchange × List (List ℕ))
unfolding send handle_write
events [] x accepted = some (x, accepted)
events (sends m tail ∷ es) x accepted =
    events es (after_send x (send x.session (m ++ tail) (length m))) (accept x accepted m)
events (completes ∷ es) x accepted = elim (complete x x.outstanding) [
  | none ↦ none
  | some x' ↦ events es x' accepted
]

abbrev pub start : Exchange
start = record { session = new; outstanding = []; completed = [] }

-- Every message has at most 2048 bytes.
abbrev pub Fit : List Event → Type 0
Fit [] = Unit
Fit (sends m tail ∷ es) = (length m ≤ 2048) × Fit es
Fit (completes ∷ es) = Fit es

-- The completed writes and those of the queue are the accepted messages, and the write that is
-- outstanding is that of the front of the queue.
pub record IsOrdered (x : Exchange) (accepted : List (List ℕ)) : Type 0 where
  pub pending : List (List ℕ)
  pub queue : x.session.send_que ≡ map packed pending
  pub front : x.outstanding ≡ map wire (take 1 pending)
  pub order : x.completed ++ map wire pending ≡ map wire accepted
  pub room : length pending ≤ 1001

-- What Send does to the queue and to the writes keeps the order.
pub posted-IsOrdered :
    (x : Exchange) (s : Session) (accepted : List (List ℕ)) (m : List ℕ)
    → s.send_que ≡ (post x.session.send_que m).0
    → IsOrdered x accepted
    → IsOrdered (after_send x (s, (post x.session.send_que m).1)) (accept x accepted m)
posted-IsOrdered x s accepted m p v = by_queue v.pending v.queue v.front v.order v.room
  where
    by_queue :
        (ms : List (List ℕ))
        → x.session.send_que ≡ map packed ms
        → x.outstanding ≡ map wire (take 1 ms)
        → x.completed ++ map wire ms ≡ map wire accepted
        → length ms ≤ 1001
        → IsOrdered (after_send x (s, (post x.session.send_que m).1)) (accept x accepted m)
    by_queue [] q f o r = rw q (record {
      pending = m ∷ [];
      queue = p ∙ ap (λ t. (post t m).0) q;
      front = ap (λ o'. o' ++ wire m ∷ []) f;
      order = order-append wire x.completed [] accepted (m ∷ []) o;
      room = omega arith;
    })
    by_queue (n ∷ ms) q f o r =
        let left = p ∙ ap (λ t. (post t m).0) q in
        elim (Bool-cases (ltb max_sendque (length (map packed (n ∷ ms))))) [
          | inl full ↦
              rw (q, full)
                (record {
                  pending = n ∷ ms;
                  queue = left ∙ rw full refl;
                  front = append-nil x.outstanding ∙ f;
                  order = o;
                  room = r;
                })
          | inr room ↦
              rw (q, room)
                (record {
                  pending = n ∷ ms ++ m ∷ [];
                  queue =
                      left
                      ∙ rw room refl
                      ∙ ap (λ t. packed n ∷ t) (sym (map-append packed ms (m ∷ [])));
                  front = append-nil x.outstanding ∙ f;
                  order = order-append wire x.completed (n ∷ ms) accepted (m ∷ []) o;
                  room = ground (arith, room, length-map packed ms, length-append ms (m ∷ []));
                })
        ]

first_write : (ms : List (List ℕ)) → writes (write_front (map packed ms)) ≡ map wire (take 1 ms)
first_write [] = refl
first_write (m ∷ ms) = ap writes (write_front_lem m (map packed ms))

-- A completion takes the message at the front off the queue, and starts the next write.
pub record Completion (x : Exchange) (accepted pending : List (List ℕ)) : Type 0 where
  pub exchange : Exchange
  pub result : complete x x.outstanding ≡ some exchange
  pub ordered : IsOrdered exchange accepted
  pub pending_left : ordered.pending ≡ drop 1 pending
  pub session_left : exchange.session ≡ record x.session { send_que = map packed (drop 1 pending) }

pub complete-IsOrdered :
    (x : Exchange) (accepted : List (List ℕ)) (v : IsOrdered x accepted)
    → Completion x accepted v.pending
unfolding handle_write
complete-IsOrdered x accepted v = by_queue v.pending v.queue v.front v.order v.room
  where
    by_queue :
        (ms : List (List ℕ))
        → x.session.send_que ≡ map packed ms
        → x.outstanding ≡ map wire (take 1 ms)
        → x.completed ++ map wire ms ≡ map wire accepted
        → length ms ≤ 1001
        → Completion x accepted ms
    by_queue [] q f o r = record {
      exchange = x;
      result = ap (complete x) f;
      ordered = record { pending = []; queue = q; front = f; order = o; room = r };
      pending_left = refl;
      session_left = ap (λ t. record x.session { send_que = t }) q;
    }
    by_queue (n ∷ ms) q f o r = record {
      exchange = record {
        session = record x.session { send_que = map packed ms };
        outstanding = writes (write_front (map packed ms));
        completed = x.completed ++ wire n ∷ [];
      };
      result = ap (complete x) f ∙ rw q refl;
      ordered = record {
        pending = ms;
        queue = refl;
        front = first_write ms;
        order = append_assoc x.completed (wire n ∷ []) (map wire ms) ∙ o;
        room = omega (arith, r);
      };
      pending_left = refl;
      session_left = refl;
    }

events-IsOrdered :
    (es : List Event) (x : Exchange) (accepted : List (List ℕ))
    → Fit es
    → IsOrdered x accepted
    → (x' : Exchange) × (accepted' : List (List ℕ)) × (events es x accepted ≡ some (x', accepted'))
      × IsOrdered x' accepted'
unfolding events
events-IsOrdered [] x accepted f v = (x, accepted, refl, v)
events-IsOrdered (sends m tail ∷ es) x accepted (h, f) v =
    let s : Session = record x.session { send_que = (post x.session.send_que m).0 } in
    let out = (post x.session.send_que m).1 in
    let (x', accepted', e, v') =
      events-IsOrdered es (after_send x (s, out)) (accept x accepted m) f
        (posted-IsOrdered x s accepted m refl v) in
    (
      x',
      accepted',
      ap (λ r. events es (after_send x r) (accept x accepted m)) (send_lem x.session m tail h) ∙ e,
      v',
    )
events-IsOrdered (completes ∷ es) x accepted f v =
    let c = complete-IsOrdered x accepted v in
    let (x', accepted', e, v') = events-IsOrdered es c.exchange accepted f c.ordered in
    (x', accepted', rw (c.result, events) e, v')

pub start-IsOrdered : IsOrdered start []
unfolding new
start-IsOrdered = record {
  pending = [];
  queue = refl;
  front = refl;
  order = refl;
  room = omega arith;
}

-- However sends of messages of at most 2048 bytes and completions of writes follow one another on a
-- new session: every handler returns; the completed writes and those of the queue are the messages
-- that were not dropped, each with its length prefix, in order; at most one write is outstanding,
-- that of the front of the queue, and there is one while the queue has a message; and the queue has
-- at most 1001 messages.
pub events_lem :
    (es : List Event)
    → Fit es
    → (x : Exchange) × (accepted : List (List ℕ)) × (events es start [] ≡ some (x, accepted))
      × IsOrdered x accepted
events_lem es f = events-IsOrdered es start [] f start-IsOrdered
