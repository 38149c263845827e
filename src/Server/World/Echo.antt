-- ===== src/Server/World/Echo.antt =====
-- What a peer gets back from the server, whatever the other peers do.
use cxx.Common.{
  ℕ, ◌≤◌, ◌≡◌, ◌≢◌, ◌∙◌, sym, ap, subst, arith, false, none, some, List, ◌∷◌, ◌++◌, Eq, length, map,
  replicate, if◌then◌else◌,
}
use mathlib.Core.Option.{some-injective}
use cxx.SafeMap.{find_entry_for, insert}
use cxx.SafeMap.Bucket.{Distinct}
use cxx.Session.Frame.{idle, feed_all}
use cxx.Session.Outbox.{wire}
use cxx.Session.Streams.{IsReading, AllShort, wires, wires-feed_all}
use cxx.Session.Writes.{Exchange, start, IsOrdered}
use cxx.Session.Echo.{new-Repr}
use cxx.Session.Dialogue.{written, dialogue, dialogue_lem}
use cxx.Server.World.{PeerEvent, World, Event, accepts, listening, peer_run, run}
use cxx.Server.World.Isolation.{
  opened, events_of, Apart, Knows, accepted, accepts_lem, continue, run-continue, insert-Distinct,
  find-add_to-same, run-Ends,
}
use cxx.Server.World.Runs.{run-append, run-Distinct}
use cxx.Server.World.Live.{received}
use cxx.Server.World.Alone.{Unbroken, steps, arrivals-steps, open_peer, peer_run-dialogue}
use cxx.Server.World.Survival.{NonNegative, run_goes_on}

-- A peer by itself gets its messages back.
alone_echoes :
    (es : List PeerEvent) (ms : List (List ℕ))
    → AllShort ms
    → length ms ≤ 1001
    → Unbroken es
    → received es ≡ wires ms
    → (x : Exchange) × (y : Exchange) × (peer_run es opened ≡ some (open_peer x, false))
      × IsOrdered x ms
      × (dialogue (replicate (length ms) written) x ≡ some y)
      × (y.completed ≡ map wire ms)
alone_echoes es ms short h u r =
    let (x, y, d, o, z, c) = dialogue_lem (steps es) ms short h (arrivals-steps es ∙ r) in
    let parsed : feed_all idle (received es) ≡ (idle, ms) =
      ap (feed_all idle) r ∙ wires-feed_all ms short in
    (
      x,
      y,
      peer_run-dialogue es idle start x new-Repr u (subst (λ t. IsReading t.0) (sym parsed) tt) d,
      o,
      z,
      c,
    )

module _ {U : Type 0} ⦃e : Eq U⦄ where
  opened-Knows :
      (w : World U) (fresh : U)
      → Distinct w.kept
      → find_entry_for w.accepting w.kept ≡ none
      → Knows (accepted w fresh) w.accepting opened (some w.accepting)
  unfolding insert find_entry_for
  opened-Knows w fresh d h = record {
    peer = find-add_to-same w.accepting opened w.peers;
    distinct = insert-Distinct w.accepting w.accepting w.kept d;
    listed = rw (h, insert) (ground (arith, e.beq_iff w.accepting w.accepting));
  }

  -- What the peer of the session `u` has got back: the server keeps the session, which reads on;
  -- what has been written and what waits are the messages `ms`, each with its length prefix, in
  -- order, and the completions of the writes that are left send just these.
  pub record Echoed (w : World U) (u : U) (ms : List (List ℕ)) : Type 0 where
    pub exchange : Exchange
    pub peer : find_entry_for u w.peers ≡ some (open_peer exchange)
    pub kept : find_entry_for u w.kept ≡ some u
    pub ordered : IsOrdered exchange ms
    pub drained : Exchange
    pub drains : dialogue (replicate (length ms) written) exchange ≡ some drained
    pub all_sent : drained.completed ≡ map wire ms

  among_others :
      (w w' : World U) (fresh : U) (es : List (Event U)) (ms : List (List ℕ))
      → Distinct w.kept
      → find_entry_for w.accepting w.kept ≡ none
      → w.accepting ≢ fresh
      → Apart w.accepting es
      → AllShort ms
      → length ms ≤ 1001
      → Unbroken (events_of w.accepting es)
      → received (events_of w.accepting es) ≡ wires ms
      → run es (accepted w fresh) ≡ some w'
      → Echoed w' w.accepting ms
  among_others w w' fresh es ms d f n a short h u r s =
      let (x, y, p, o, z, c) = alone_echoes (events_of w.accepting es) ms short h u r in
      let l =
        run-Ends es (accepted w fresh) w' w.accepting opened (some w.accepting)
          (opened-Knows w fresh d f) n a s in
      let same : (open_peer x, false) ≡ (l.last, l.cleared) =
        some-injective _ _ (sym p ∙ l.result) in
      record {
        exchange = x;
        peer = l.knows.peer ∙ ap (λ t. some t.0) (sym same);
        kept = l.knows.listed ∙ ap (λ t. if t.1 then none else some w.accepting) (sym same);
        ordered = o;
        drained = y;
        drains = z;
        all_sent = c;
      }

  -- Once a session has been accepted under an identifier that is new, let its peer send at most 1001
  -- messages of at most 2048 bytes each, cut into chunks in any way, while none of its reads and
  -- writes fails; let the other peers, before and after, do whatever they like short of a negative
  -- length, in any order, and later identifiers be new. Then no handler ends the server, which still
  -- keeps the session; the session has echoed the messages, each with its length prefix, in order,
  -- and nothing else; and as many completions more as there are messages send what is left.
  pub echo_among :
      (first fresh : U) (before later : List (Event U)) (w : World U) (ms : List (List ℕ))
      → run before (listening first) ≡ some w
      → find_entry_for w.accepting w.kept ≡ none
      → w.accepting ≢ fresh
      → Apart w.accepting later
      → NonNegative first (before ++ accepts false fresh ∷ later)
      → AllShort ms
      → length ms ≤ 1001
      → Unbroken (events_of w.accepting later)
      → received (events_of w.accepting later) ≡ wires ms
      → (w' : World U) × (run (before ++ accepts false fresh ∷ later) (listening first) ≡ some w')
        × Echoed w' w.accepting ms
  echo_among first fresh before later w ms r f n a g short h u s =
      let (w', t) = run_goes_on first (before ++ accepts false fresh ∷ later) g in
      let after_accept : run later (accepted w fresh) ≡ some w' =
        sym (
          run-append before (accepts false fresh ∷ later) (listening first)
          ∙ ap (continue (accepts false fresh ∷ later)) r
          ∙ run-continue (accepts false fresh) later w
          ∙ ap (continue later) (accepts_lem w fresh))
        ∙ t in
      (
        w',
        t,
        among_others w w' fresh later ms (run-Distinct before (listening first) w tt r) f n a short
            h u s after_accept,
      )
