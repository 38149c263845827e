-- ===== src/Session/Streams.antt =====
-- A stream that arrives in chunks of any size, and messages on the wire.
use cxx.Common.{
  ℕ, ◌+◌, ◌≤◌, ◌≡◌, ◌≢◌, ◌∙◌, sym, refl, ap, ap₂, subst, false, List, [], ◌∷◌, ◌++◌, append_assoc,
  append-nil, arith, length, take-append, drop-append_self, ◌/◌, ◌%◌, ◌*◌, length-append,
}
use cxx.Session.{
  MsgNode, Session, Effect, read_some, write, clear_session, close_socket, Result, done, exception,
  fault, out_of_fuel,
}
use cxx.Session.HandleRead.{handle_read}
use cxx.Session.Outbox.{post, wire}
use cxx.Session.Turns.{Repr}
use cxx.Session.Reads.{post_all, last_effect, ReadsTo, handle_read_lem}
use cxx.Session.Frame.{Frame, idle, half, body, refused, undefined, after, begin, feed_all}
use cxx.Session.Frame.Runs.{after_assoc, feed_all-append, feed_all-refused, feed_all-undefined}
use cxx.Session.Frame.Begins.{begun_whole}

-- A chunk has at least one byte.
abbrev pub Chunk : Type 0
Chunk = ℕ × List ℕ

abbrev pub stream : List Chunk → List ℕ
stream [] = []
stream ((b, rest) ∷ cs) = (b ∷ rest) ++ stream cs

abbrev pub with_effects : List Effect → Result → Result
with_effects out (done s more) = done s (out ++ more)
with_effects out r = r

-- The read handler, called for each chunk.
unfoldable pub read_all : Session → List Chunk → Result
read_all s [] = done s []
read_all s ((b, rest) ∷ cs) = elim (handle_read s false (b ∷ rest)) [
  | done s' out ↦ with_effects out (read_all s' cs)
  | exception ↦ exception
  | fault ↦ fault
  | out_of_fuel ↦ out_of_fuel
]

-- What goes out on the socket.
abbrev pub writes : List Effect → List (List ℕ)
writes [] = []
writes (write bytes ∷ es) = bytes ∷ writes es
writes (_ ∷ es) = writes es

pub writes-append : (xs ys : List Effect) → writes (xs ++ ys) ≡ writes xs ++ writes ys
writes-append [] ys = refl
writes-append (write bytes ∷ xs) ys = ap (◌∷◌ bytes) (writes-append xs ys)
writes-append (read_some ∷ xs) ys = writes-append xs ys
writes-append (clear_session ∷ xs) ys = writes-append xs ys
writes-append (close_socket ∷ xs) ys = writes-append xs ys

pub writes-last : (f : Frame) → writes (last_effect f ∷ []) ≡ []
writes-last idle = refl
writes-last f = refl

post_all-append :
    (q : List MsgNode) (ms ns : List (List ℕ))
    → post_all q (ms ++ ns)
      ≡ ((post_all (post_all q ms).0 ns).0, (post_all q ms).1 ++ (post_all (post_all q ms).0 ns).1)
post_all-append q [] ns = refl
post_all-append q (m ∷ ms) ns = rw (post_all-append (post q m).0 ms ns) (simp append_assoc)

-- Frames in which the session goes on reading.
abbrev pub IsReading : Frame → Type 0
IsReading refused = ⊥
IsReading undefined = ⊥
IsReading _ = Unit

pub prefix-IsReading : (f : Frame) (xs : List ℕ) → IsReading (feed_all f xs).0 → IsReading f
prefix-IsReading refused xs h = subst (λ p. IsReading p.0) (feed_all-refused xs) h
prefix-IsReading undefined xs h = subst (λ p. IsReading p.0) (feed_all-undefined xs) h
prefix-IsReading idle xs h = tt
prefix-IsReading (half hi) xs h = tt
prefix-IsReading (body n got) xs h = tt

pub not-refused : (f : Frame) → IsReading f → f ≢ refused
not-refused f h e = subst IsReading e h

pub not-undefined : (f : Frame) → IsReading f → f ≢ undefined
not-undefined f h e = subst IsReading e h

-- Chunks that take a session from `s` to frame `f` and make it echo `ms`.
pub record Echoes (s : Session) (f : Frame) (ms : List (List ℕ)) (r : Result) : Type 0 where
  pub session : Session
  pub effects : List Effect
  pub result : r ≡ done session effects
  pub repr : Repr f session
  pub queue : session.send_que ≡ (post_all s.send_que ms).0
  pub sent : writes effects ≡ writes (post_all s.send_que ms).1

abbrev pub EchoesTo : Session → Frame × List (List ℕ) → Result → Type 0
EchoesTo s (f, ms) r = Echoes s f ms r

-- A chunk, and then the others.
then_echoes :
    (s : Session) (b : ℕ) (rest : List ℕ) (cs : List Chunk) (p q : Frame × List (List ℕ))
    → (c : ReadsTo s p [] (handle_read s false (b ∷ rest)))
    → EchoesTo c.session q (read_all c.session cs)
    → EchoesTo s (after p.1 q) (read_all s ((b, rest) ∷ cs))
unfolding read_all
then_echoes s b rest cs (f, ms) (g, ns) c d =
    let joined = post_all-append s.send_que ms ns in
    let first = (post_all s.send_que ms).1 ++ last_effect f ∷ [] in
    record {
      session = d.session;
      effects = first ++ d.effects;
      result = rw (c.result, read_all) (rw d.result);
      repr = d.repr;
      queue = d.queue ∙ ap (λ t. (post_all t ns).0) c.queue ∙ sym (ap (λ t. t.0) joined);
      sent =
          writes-append first d.effects
          ∙ ap₂ ◌++◌
              (writes-append (post_all s.send_que ms).1 (last_effect f ∷ [])
                ∙ ap (λ t. writes (post_all s.send_que ms).1 ++ t) (writes-last f)
                ∙ append-nil (writes (post_all s.send_que ms).1))
              (d.sent ∙ ap (λ t. writes (post_all t ns).1) c.queue)
          ∙ sym (
              ap (λ t. writes t.1) joined
              ∙ writes-append (post_all s.send_que ms).1
                  (post_all (post_all s.send_que ms).0 ns).1);
    }

no_chunks : (f : Frame) (s : Session) → Repr f s → EchoesTo s (feed_all f []) (read_all s [])
unfolding read_all feed_all
no_chunks f s r = record {
  session = s;
  effects = [];
  result = refl;
  repr = r;
  queue = refl;
  sent = refl;
}

-- However a stream of bytes is cut into chunks, the session echoes the messages of the stream, and
-- nothing else, and is left where the stream leaves it, if no length in the stream is above 2048.
pub read_all_lem :
    (f : Frame) (s : Session) (cs : List Chunk)
    → Repr f s
    → IsReading (feed_all f (stream cs)).0
    → EchoesTo s (feed_all f (stream cs)) (read_all s cs)
read_all_lem f s [] r h = no_chunks f s r
read_all_lem f s ((b, rest) ∷ cs) r h =
    let p = feed_all f (b ∷ rest) in
    let split = feed_all-append f (b ∷ rest) (stream cs) in
    let after_chunk : IsReading (feed_all p.0 (stream cs)).0 = subst (λ t. IsReading t.0) split h in
    let at_end : IsReading p.0 = prefix-IsReading p.0 (stream cs) after_chunk in
    let at_start : IsReading f = prefix-IsReading f (b ∷ rest) at_end in
    let c = handle_read_lem f s b rest (not-refused f at_start) r (not-undefined p.0 at_end) in
    subst (λ t. EchoesTo s t (read_all s ((b, rest) ∷ cs))) (sym split)
      (then_echoes s b rest cs p (feed_all p.0 (stream cs)) c
        (read_all_lem p.0 c.session cs c.repr after_chunk))

-- Messages as a peer sends them.
abbrev pub wires : List (List ℕ) → List ℕ
wires [] = []
wires (m ∷ ms) = wire m ++ wires ms

abbrev pub AllShort : List (List ℕ) → Type 0
AllShort [] = Unit
AllShort (m ∷ ms) = (length m ≤ 2048) × AllShort ms

wire-feed_all :
    (m rest : List ℕ)
    → length m ≤ 2048
    → feed_all idle (wire m ++ rest) ≡ after (m ∷ []) (feed_all idle rest)
unfolding feed_all
wire-feed_all m rest h =
    let read : (length m / 256 % 256 * 256 + length m % 256) % 65536 ≡ length m = omega arith in
    let whole =
      begun_whole (length m) (m ++ rest) (omega arith) (omega (arith, length-append m rest)) in
    rw read (
      after_assoc [] (begin (length m)).1 (feed_all (begin (length m)).0 (m ++ rest))
      ∙ whole
      ∙ rw (take-append m rest, drop-append_self m rest))

-- Messages of at most 2048 bytes, written on the wire one after another with the session's length
-- prefix, are read back as these messages by the reference reader of frames.
pub wires-feed_all : (ms : List (List ℕ)) → AllShort ms → feed_all idle (wires ms) ≡ (idle, ms)
unfolding feed_all
wires-feed_all [] h = refl
wires-feed_all (m ∷ ms) h = rw (wire-feed_all m (wires ms) h.0, wires-feed_all ms h.1)
