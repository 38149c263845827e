-- ===== src/Server/World/Alone.antt =====
-- A session by itself whose reads and writes do not fail: the dialogue of its session.
use cxx.Common.{
  ℕ, ◌≡◌, ◌∙◌, refl, sym, ap, subst, true, false, Option, none, some, List, [], ◌∷◌, ◌++◌,
}
use mathlib.Core.Option.{some-injective}
use cxx.Session.{MsgNode, Result}
use cxx.Session.HandleRead.{handle_read}
use cxx.Session.Turns.{Repr}
use cxx.Session.Frame.{Frame, idle, half, body, refused, undefined, feed_all}
use cxx.Session.Frame.Runs.{feed_all-append}
use cxx.Session.Reads.{post_all, last_effect, ReadsTo, handle_read_lem}
use cxx.Session.Streams.{IsReading, prefix-IsReading, not-refused, not-undefined}
use cxx.Session.Writes.{Exchange, after_send, complete, after_write as completed}
use cxx.Session.Dialogue.{
  Step, arrives, written, dialogue, after_read as heard, arrivals, Repr-send_que,
}
use cxx.Server.World.{
  Peer, PeerEvent, receives, read_fails, sent, write_fails, reads, clears, after_read, peer_step,
  peer_run, also_cleared,
}
use cxx.Server.World.Writing.{next_write, next_write_lem, sent_lem}
use cxx.Server.World.Live.{received, posts_quiet}

-- No read or write of the session fails.
abbrev pub Unbroken : List PeerEvent → Type 0
Unbroken [] = Unit
Unbroken (receives b rest ∷ es) = Unbroken es
Unbroken (sent ∷ es) = Unbroken es
Unbroken (read_fails ∷ es) = ⊥
Unbroken (write_fails ∷ es) = ⊥

abbrev pub steps : List PeerEvent → List Step
steps [] = []
steps (receives b rest ∷ es) = arrives b rest ∷ steps es
steps (sent ∷ es) = written ∷ steps es
steps (read_fails ∷ es) = steps es
steps (write_fails ∷ es) = steps es

pub arrivals-steps : (es : List PeerEvent) → arrivals (steps es) ≡ received es
arrivals-steps [] = refl
arrivals-steps (receives b rest ∷ es) = ap (λ t. (b ∷ rest) ++ t) (arrivals-steps es)
arrivals-steps (sent ∷ es) = arrivals-steps es
arrivals-steps (read_fails ∷ es) = arrivals-steps es
arrivals-steps (write_fails ∷ es) = arrivals-steps es

last_reads :
    (f : Frame)
    → IsReading f
    → (reads (last_effect f ∷ []) ≡ true) × (clears (last_effect f ∷ []) ≡ false)
last_reads idle h = (refl, refl)
last_reads (half hi) h = (refl, refl)
last_reads (body n got) h = (refl, refl)
last_reads refused h = elim h [ ]
last_reads undefined h = elim h [ ]

abbrev pub open_peer : Exchange → Peer
open_peer x = record { exchange = x; reading = true }

-- A read that leaves the session reading.
read_open :
    (x : Exchange) (q : Frame × List (List ℕ)) (r : Result) (c : ReadsTo x.session q [] r)
    → IsReading q.0
    → after_read x r
      ≡ some (
        open_peer
            (after_send x (c.session, (post_all x.session.send_que q.1).1 ++ last_effect q.0 ∷ [])),
        false,
      )
read_open x (f, ms) r c h =
    let quiet = posts_quiet x.session.send_que ms (last_effect f ∷ []) in
    let last = last_reads f h in rw (c.result, quiet.0, quiet.1, last.0, last.1) refl

-- The same read in the dialogue
read_heard :
    (x : Exchange) (q : Frame × List (List ℕ)) (r : Result) (c : ReadsTo x.session q [] r)
    → heard x r
      ≡ some (after_send x (c.session, (post_all x.session.send_que q.1).1 ++ last_effect q.0 ∷ []))
read_heard x (f, ms) r c = rw (c.result) refl

abbrev then_dialogue : List Step → Option Exchange → Option Exchange
then_dialogue es none = none
then_dialogue es (some x) = dialogue es x

dialogue-written :
    (x : Exchange) (es : List Step)
    → dialogue (written ∷ es) x ≡ then_dialogue es (complete x x.outstanding)
unfolding dialogue
dialogue-written x es = by_completion (complete x x.outstanding) refl
  where
    by_completion :
        (o : Option Exchange)
        → complete x x.outstanding ≡ o
        → dialogue (written ∷ es) x ≡ then_dialogue es (complete x x.outstanding)
    by_completion none h = rw (h, dialogue) refl
    by_completion (some x') h = rw (h, dialogue) refl

peer_run-step :
    (p p' : Peer) (ev : PeerEvent) (es : List PeerEvent)
    → peer_step p ev ≡ some (p', false)
    → peer_run (ev ∷ es) p ≡ also_cleared false (peer_run es p')
unfolding peer_run
peer_run-step p p' ev es h = rw (h, peer_run) refl

dialogue-arrives :
    (x x' : Exchange) (b : ℕ) (rest : List ℕ) (es : List Step)
    → heard x (handle_read x.session false (b ∷ rest)) ≡ some x'
    → dialogue (arrives b rest ∷ es) x ≡ dialogue es x'
unfolding dialogue
dialogue-arrives x x' b rest es h = rw (h, dialogue) refl

-- A completion does not touch what has been read.
complete-Repr :
    (f : Frame) (x x' : Exchange) (outstanding : List (List ℕ))
    → complete x outstanding ≡ some x'
    → Repr f x.session
    → Repr f x'.session
complete-Repr f x x' [] h r = subst (λ t. Repr f t.session) (some-injective x x' h) r
complete-Repr f x x' (bytes ∷ rest) h r =
    by_queue x.session.send_que
      (subst (λ t. completed x bytes rest t ≡ some x') (next_write_lem x.session) h)
  where
    by_queue :
        (q : List MsgNode)
        → completed x bytes rest (next_write x.session q) ≡ some x'
        → Repr f x'.session
    by_queue [] h' = absurd (cc)
    by_queue (n ∷ q) h' =
        subst (λ t. Repr f t.session) (some-injective _ x' h') (Repr-send_que f x.session q r)

sent_dialogue :
    (es : List PeerEvent) (f : Frame) (x y : Exchange) (o : Option Exchange)
    → Repr f x.session
    → complete x x.outstanding ≡ o
    → then_dialogue (steps es) o ≡ some y
    → ((x' : Exchange)
        → Repr f x'.session
        → dialogue (steps es) x' ≡ some y
        → peer_run es (open_peer x') ≡ some (open_peer y, false))
    → peer_run (sent ∷ es) (open_peer x) ≡ some (open_peer y, false)
sent_dialogue es f x y none r e d ih = absurd (cc)
sent_dialogue es f x y (some x') r e d ih =
    peer_run-step (open_peer x) (open_peer x') sent es
      (unfold peer_step in sent_lem (open_peer x) x.outstanding x' e)
    ∙ ap (also_cleared false) (ih x' (complete-Repr f x x' x.outstanding e r) d)

-- A session by itself, none of whose reads and writes fail, and which is sent no length above 2048,
-- is the dialogue of its session: it keeps reading, and does not end.
pub peer_run-dialogue :
    (es : List PeerEvent) (f : Frame) (x y : Exchange)
    → Repr f x.session
    → Unbroken es
    → IsReading (feed_all f (received es)).0
    → dialogue (steps es) x ≡ some y
    → peer_run es (open_peer x) ≡ some (open_peer y, false)
peer_run-dialogue [] f x y r b h d =
    unfold dialogue peer_run in ap (λ t. some (open_peer t, false)) (some-injective x y d)
peer_run-dialogue (receives b rest ∷ es) f x y r u h d =
    let q = feed_all f (b ∷ rest) in
    let later : IsReading (feed_all q.0 (received es)).0 =
      subst (λ t. IsReading t.0) (feed_all-append f (b ∷ rest) (received es)) h in
    let at_end : IsReading q.0 = prefix-IsReading q.0 (received es) later in
    let at_start : IsReading f = prefix-IsReading f (b ∷ rest) at_end in
    let c =
      handle_read_lem f x.session b rest (not-refused f at_start) r (not-undefined q.0 at_end) in
    let x' =
      after_send x (c.session, (post_all x.session.send_que q.1).1 ++ last_effect q.0 ∷ []) in
    let stepped : peer_step (open_peer x) (receives b rest) ≡ some (open_peer x', false) =
      unfold peer_step in read_open x q (handle_read x.session false (b ∷ rest)) c at_end in
    peer_run-step (open_peer x) (open_peer x') (receives b rest) es stepped
    ∙ ap (also_cleared false) (
        peer_run-dialogue es q.0 x' y c.repr u later
          (sym (dialogue-arrives x x' b rest (steps es) (read_heard x q _ c)) ∙ d))
peer_run-dialogue (sent ∷ es) f x y r u h d =
    sent_dialogue es f x y (complete x x.outstanding) r refl
      (sym (dialogue-written x (steps es)) ∙ d) (λ x' r' d'. peer_run-dialogue es f x' y r' u h d')
peer_run-dialogue (read_fails ∷ es) f x y r u h d = elim u [ ]
peer_run-dialogue (write_fails ∷ es) f x y r u h d = elim u [ ]
