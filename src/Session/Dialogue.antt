-- ===== src/Session/Dialogue.antt =====
-- A peer and the session: what is read comes back, with the completions of the writes in between.
use cxx.Common.{
  ℕ, zero, suc, ◌+◌, ◌≤◌, ◌≡◌, ◌∙◌, refl, sym, ap, subst, false, Option, none, some, List, [], ◌∷◌,
  ◌++◌, map, append_assoc, append-nil, arith, length, length-append, replicate, length-drop,
  length_eq_zero,
}
use cxx.Session.{MsgNode, Session, Result, done, exception, fault, out_of_fuel}
use cxx.Session.HandleRead.{handle_read}
use cxx.Session.Outbox.{wire}
use cxx.Session.Turns.{Repr}
use cxx.Session.Frame.{Frame, idle, half, body, refused, undefined, after, feed_all}
use cxx.Session.Frame.Runs.{feed_all-append}
use cxx.Session.Reads.{post_all, last_effect, ReadsTo, handle_read_lem}
use cxx.Session.Streams.{
  writes, writes-append, writes-last, IsReading, prefix-IsReading, not-refused, not-undefined,
  AllShort, wires, wires-feed_all,
}
use cxx.Session.Writes.{
  Exchange, after_send, complete, start, IsOrdered, complete-IsOrdered, start-IsOrdered,
}
use cxx.Session.Echo.{new-Repr}
use cxx.Session.Posts.{pending_le, post_all-IsOrdered}

-- Bytes arrive, at least one, or the write that was started first completes.
pub data Step : Type 0 where
  arrives : ℕ → List ℕ → Step
  written : Step

abbrev pub after_read : Exchange → Result → Option Exchange
after_read x (done s out) = some (after_send x (s, out))
after_read x exception = none
after_read x fault = none
after_read x out_of_fuel = none

unfoldable pub dialogue : List Step → Exchange → Option Exchange
dialogue [] x = some x
dialogue (arrives b rest ∷ es) x = elim (after_read x (handle_read x.session false (b ∷ rest))) [
  | none ↦ none
  | some x' ↦ dialogue es x'
]
dialogue (written ∷ es) x = elim (complete x x.outstanding) [
  | none ↦ none
  | some x' ↦ dialogue es x'
]

abbrev pub arrivals : List Step → List ℕ
arrivals [] = []
arrivals (arrives b rest ∷ es) = (b ∷ rest) ++ arrivals es
arrivals (written ∷ es) = arrivals es

pub Repr-send_que :
    (f : Frame) (s : Session) (q : List MsgNode) → Repr f s → Repr f (record s { send_que = q })
Repr-send_que idle s q r = r
Repr-send_que (half hi) s q r = r
Repr-send_que (body n got) s q r = r
Repr-send_que refused s q r = r
Repr-send_que undefined s q r = r

-- Where a dialogue leads: the session is where the frame says, and the messages have been echoed.
record Leads (es : List Step) (x : Exchange) (heard : List (List ℕ)) (t : Frame × List (List ℕ))
    : Type 0 where
  exchange : Exchange
  result : dialogue es x ≡ some exchange
  ordered : IsOrdered exchange (heard ++ t.1)
  repr : Repr t.0 exchange.session

-- One read, and then the others.
read-Leads :
    (es : List Step) (x : Exchange) (heard : List (List ℕ)) (b : ℕ) (rest : List ℕ)
    (p q : Frame × List (List ℕ))
    → IsOrdered x heard
    → (length heard + length p.1 ≤ 1001)
    → (c : ReadsTo x.session p [] (handle_read x.session false (b ∷ rest)))
    → ((x' : Exchange)
        → IsOrdered x' (heard ++ p.1)
        → Repr p.0 x'.session
        → Leads es x' (heard ++ p.1) q)
    → Leads (arrives b rest ∷ es) x heard (after p.1 q)
unfolding dialogue
read-Leads es x heard b rest (f, ms) (g, ns) v h c k =
    let out = (post_all x.session.send_que ms).1 ++ last_effect f ∷ [] in
    let written_out : writes out ≡ writes (post_all x.session.send_que ms).1 =
      writes-append (post_all x.session.send_que ms).1 (last_effect f ∷ [])
      ∙ ap (λ t. writes (post_all x.session.send_que ms).1 ++ t) (writes-last f)
      ∙ append-nil (writes (post_all x.session.send_que ms).1) in
    let l =
      k (after_send x (c.session, out))
        (post_all-IsOrdered ms x c.session heard out c.queue written_out h v) c.repr in
    record {
      exchange = l.exchange;
      result = rw (c.result, dialogue) l.result;
      ordered = subst (IsOrdered l.exchange) (append_assoc heard ms ns) l.ordered;
      repr = l.repr;
    }

dialogue-Leads :
    (es : List Step) (f : Frame) (x : Exchange) (heard : List (List ℕ))
    → Repr f x.session
    → IsOrdered x heard
    → IsReading (feed_all f (arrivals es)).0
    → length heard + length (feed_all f (arrivals es)).1 ≤ 1001
    → Leads es x heard (feed_all f (arrivals es))
unfolding dialogue
dialogue-Leads [] f x heard r v g h =
    unfold feed_all in
    record {
      exchange = x;
      result = refl;
      ordered = subst (IsOrdered x) (sym (append-nil heard)) v;
      repr = r;
    }
dialogue-Leads (arrives b rest ∷ es) f x heard r v g h =
    let p = feed_all f (b ∷ rest) in
    let q = feed_all p.0 (arrivals es) in
    let split = feed_all-append f (b ∷ rest) (arrivals es) in
    let after_chunk : IsReading q.0 = subst (λ t. IsReading t.0) split g in
    let at_end : IsReading p.0 = prefix-IsReading p.0 (arrivals es) after_chunk in
    let at_start : IsReading f = prefix-IsReading f (b ∷ rest) at_end in
    let c =
      handle_read_lem f x.session b rest (not-refused f at_start) r (not-undefined p.0 at_end) in
    let total : length heard + length (p.1 ++ q.1) ≤ 1001 =
      subst (λ t. length heard + length t.1 ≤ 1001) split h in
    subst (Leads (arrives b rest ∷ es) x heard) (sym split) (
      read-Leads es x heard b rest p q v (omega (arith, total, length-append p.1 q.1)) c
        (λ x' v' r'.
          dialogue-Leads es p.0 x' (heard ++ p.1) r' v' after_chunk
            (omega (arith, total, length-append p.1 q.1, length-append heard p.1))))
dialogue-Leads (written ∷ es) f x heard r v g h =
    let c = complete-IsOrdered x heard v in
    let l =
      dialogue-Leads es f c.exchange heard
        (subst (Repr f) (sym c.session_left) (Repr-send_que f x.session _ r)) c.ordered g h in
    record {
      exchange = l.exchange;
      result = rw (c.result, dialogue) l.result;
      ordered = l.ordered;
      repr = l.repr;
    }

-- Enough completions send all that is in the queue.
drained :
    (n : ℕ) (x : Exchange) (accepted : List (List ℕ)) (v : IsOrdered x accepted)
    → length v.pending ≤ n
    → (y : Exchange) × (dialogue (replicate n written) x ≡ some y)
      × (y.completed ≡ map wire accepted)
unfolding dialogue
drained zero x accepted v h = (
  x,
  refl,
  sym (append-nil x.completed)
      ∙ ap (λ t. x.completed ++ map wire t) (sym (length_eq_zero v.pending (omega (arith, h))))
      ∙ v.order,
)
drained (suc n) x accepted v h =
    let c = complete-IsOrdered x accepted v in
    let (y, e, s) =
      drained n c.exchange accepted c.ordered
        (omega (arith, h, ap length c.pending_left, length-drop 1 v.pending)) in
    (y, rw (c.result, dialogue) e, s)

-- A peer sends at most 1001 messages of at most 2048 bytes each to a new session, cut into chunks in
-- any way, and the session's writes complete in between in any way. Every handler returns; what has
-- been written and what waits in the queue are the messages, each with its length prefix, in order;
-- and after as many completions more as there are messages, where one without a write that is
-- outstanding changes nothing, exactly these have been written.
pub dialogue_lem :
    (es : List Step) (ms : List (List ℕ))
    → AllShort ms
    → length ms ≤ 1001
    → arrivals es ≡ wires ms
    → (x : Exchange) × (y : Exchange) × (dialogue es start ≡ some x)
      × IsOrdered x ms
      × (dialogue (replicate (length ms) written) x ≡ some y)
      × (y.completed ≡ map wire ms)
dialogue_lem es ms short h e =
    let parsed : feed_all idle (arrivals es) ≡ (idle, ms) =
      ap (feed_all idle) e ∙ wires-feed_all ms short in
    let l : Leads es start [] (idle, ms) = subst (Leads es start []) parsed (
      dialogue-Leads es idle start [] new-Repr start-IsOrdered
        (subst (λ t. IsReading t.0) (sym parsed) tt)
        (subst (λ t. 0 + length t.1 ≤ 1001) (sym parsed) (omega (arith, h)))) in
    let (y, e', s) =
      drained (length ms) l.exchange ms l.ordered (pending_le l.exchange ms l.ordered) in
    (l.exchange, y, l.result, l.ordered, e', s)
