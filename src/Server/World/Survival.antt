-- ===== src/Server/World/Survival.antt =====
-- The server goes on: no handler of any session ends it while no peer sends a negative length.
use cxx.Common.{
  ◌≡◌, ◌≢◌, ◌∙◌, refl, sym, ap, subst, arith, true, false, Option, none, some, List, [], ◌∷◌, Eq,
  Bool-cases, inl, inr,
}
use mathlib.Core.Option.{some-injective}
use cxx.SafeMap.{find_entry_for}
use cxx.Session.Frame.{idle, undefined, feed_all}
use cxx.Session.Writes.{start-IsOrdered}
use cxx.Session.Echo.{new-Repr}
use cxx.Server.World.{
  Peer, PeerEvent, World, Event, accepts, concerns, listening, updated, with_session, session_step,
  world_step, run,
}
use cxx.Server.World.Isolation.{
  opened, events_of, accepted, accepts_lem, accept_fails_lem, concerns_lem, continue, run-continue,
  find-add_to-other, find-add_to-same,
}
use cxx.Server.World.Live.{received, Live, peer_step-Steps}

module _ {U : Type 0} ⦃e : Eq U⦄ where
  -- From its start on, no session receives a length that is negative as a short. `a` is the session
  -- that the acceptor waits with.
  abbrev pub NonNegative : U → List (Event U) → Type 0
  NonNegative a [] = Unit
  NonNegative a (accepts false fresh ∷ es) =
      ((feed_all idle (received (events_of a es))).0 ≢ undefined) × NonNegative fresh es
  NonNegative a (accepts true fresh ∷ es) = NonNegative fresh es
  NonNegative a (concerns v ev ∷ es) = NonNegative a es

  -- Each session that has been started goes on with the bytes that are still to come.
  abbrev pub AllLive : World U → List (Event U) → Type 0
  AllLive w es =
      (u : U) (p : Peer) → find_entry_for u w.peers ≡ some p → Live p (received (events_of u es))

  opened-Live :
      (u : U) (es : List (Event U))
      → (feed_all idle (received (events_of u es))).0 ≢ undefined
      → Live opened (received (events_of u es))
  opened-Live u es n = record {
    writing = inl ([], start-IsOrdered);
    reader = λ y. (idle, new-Repr, (λ c. cc), n);
  }

  -- A session whose state changes to one that goes on
  changed-AllLive :
      (w w' : World U) (v : U) (q : Peer) (es rest : List (Event U))
      → Live q (received (events_of v rest))
      → ((u : U)
          → v ≢ u
          → (find_entry_for u w'.peers ≡ find_entry_for u w.peers)
            × (events_of u es ≡ events_of u rest))
      → find_entry_for v w'.peers ≡ some q
      → AllLive w es
      → AllLive w' rest
  changed-AllLive w w' v q es rest l o h a u p f = elim (Bool-cases (e.beq v u)) [
    | inl same ↦
        let is_v : v ≡ u = ground (arith, e.beq_iff v u) in
        let is_q : q ≡ p =
          some-injective q p (sym h ∙ ap (λ t. find_entry_for t w'.peers) is_v ∙ f) in
        subst (λ t. Live p (received (events_of t rest))) is_v
          (subst (λ t. Live t (received (events_of v rest))) is_q l)
    | inr other ↦
        let apart : v ≢ u = ground (arith, e.beq_iff v u) in
        let keeps = o u apart in subst (λ t. Live p (received t)) keeps.1 (a u p (sym keeps.0 ∙ f))
  ]

  events_of-other :
      (u v : U) (ev : PeerEvent) (es : List (Event U))
      → v ≢ u
      → events_of u (concerns v ev ∷ es) ≡ events_of u es
  events_of-other u v ev es n =
      let other : e.beq v u ≡ false = ground (arith, e.beq_iff v u) in rw other refl

  events_of-same :
      (u : U) (ev : PeerEvent) (es : List (Event U))
      → events_of u (concerns u ev ∷ es) ≡ ev ∷ events_of u es
  events_of-same u ev es =
      let same : e.beq u u ≡ true = ground (arith, e.beq_iff u u) in rw same refl

  abbrev pub Returns : List (Event U) → World U → Type 0
  Returns es w = (w' : World U) × (run es w ≡ some w')

  stepped :
      (ev : Event U) (es : List (Event U)) (w w' : World U)
      → world_step w ev ≡ some w'
      → Returns es w'
      → Returns (ev ∷ es) w
  stepped ev es w w' h (x, r) = (x, run-continue ev es w ∙ ap (continue es) h ∙ r)

  -- An event of an identifier that no session has
  unknown-AllLive :
      (es : List (Event U)) (w : World U) (v : U) (ev : PeerEvent)
      → find_entry_for v w.peers ≡ none
      → AllLive w (concerns v ev ∷ es)
      → AllLive w es
  unknown-AllLive es w v ev h a u p f =
      let apart : v ≢ u = λ c. none_or p (sym (ap (λ t. find_entry_for t w.peers) c ∙ f) ∙ h) in
      subst (λ t. Live p (received t)) (events_of-other u v ev es apart) (a u p f)
    where
      none_or : (q : Peer) → some q ≡ none → ⊥
      none_or q c = cc

  -- The event of a session that has been started, and then the others
  concerns-Returns :
      (es : List (Event U)) (w : World U) (v : U) (ev : PeerEvent) (o : Option Peer)
      → find_entry_for v w.peers ≡ o
      → AllLive w (concerns v ev ∷ es)
      → ((w' : World U) → w'.accepting ≡ w.accepting → AllLive w' es → Returns es w')
      → Returns (concerns v ev ∷ es) w
  concerns-Returns es w v ev none h a next =
      stepped (concerns v ev) es w w (concerns_lem w v ev ∙ ap (session_step w v ev) h)
        (next w refl (unknown-AllLive es w v ev h a))
  concerns-Returns es w v ev (some p) h a next =
      let live : Live p (received (ev ∷ events_of v es)) =
        subst (λ t. Live p (received t)) (events_of-same v ev es) (a v p h) in
      let s = peer_step-Steps ev (events_of v es) p live in
      let w' : World U = updated w v s.last s.cleared in
      stepped (concerns v ev) es w w'
        (concerns_lem w v ev ∙ ap (session_step w v ev) h ∙ ap (with_session w v) s.result)
        (next w' refl (
          changed-AllLive w w' v s.last (concerns v ev ∷ es) es s.live
            (λ u n. (find-add_to-other u v s.last w.peers n, events_of-other u v ev es n))
            (find-add_to-same v s.last w.peers) a))

  pub run-Returns :
      (es : List (Event U)) (w : World U) → AllLive w es → NonNegative w.accepting es → Returns es w
  run-Returns [] w a n = (w, unfold run in refl)
  run-Returns (accepts false fresh ∷ es) w a (n, ns) =
      stepped (accepts false fresh) es w (accepted w fresh) (accepts_lem w fresh) (
        run-Returns es (accepted w fresh)
          (changed-AllLive w (accepted w fresh) w.accepting opened (accepts false fresh ∷ es) es
            (opened-Live w.accepting es n)
            (λ u m. (find-add_to-other u w.accepting opened w.peers m, refl))
            (find-add_to-same w.accepting opened w.peers) a)
          ns)
  run-Returns (accepts true fresh ∷ es) w a n =
      stepped (accepts true fresh) es w (record w { accepting = fresh }) (accept_fails_lem w fresh)
        (run-Returns es (record w { accepting = fresh }) a n)
  run-Returns (concerns v ev ∷ es) w a n =
      concerns-Returns es w v ev (find_entry_for v w.peers) refl a
        (λ w' k a'. run-Returns es w' a' (subst (λ t. NonNegative t es) (sym k) n))

  -- A server goes on whatever its peers do and in whatever order: messages cut in any way, lengths
  -- above 2048, reads and writes that fail, accepts that fail, any number of sessions. Every handler
  -- of every session returns, so long as no session is sent, from its start on, a length that is
  -- negative as a short.
  pub run_goes_on :
      (first : U) (es : List (Event U))
      → NonNegative first es
      → (w : World U) × (run es (listening first) ≡ some w)
  unfolding find_entry_for
  run_goes_on first es n = run-Returns es (listening first) (λ u p f. absurd (cc)) n
