-- ===== src/Server/World/Isolation.antt =====
-- A session among the others: it goes the way that it goes by itself.
use cxx.Common.{
  ◌≡◌, ◌≢◌, ◌∙◌, refl, sym, ap, subst, arith, Bool, true, false, Option, none, some, List, [], ◌∷◌,
  if◌then◌else◌, Eq, Bool-cases, inl, inr,
}
use mathlib.Core.Option.{some-injective}
use cxx.SafeMap.{find_entry_for, add_to, insert}
use cxx.SafeMap.Bucket.{Distinct, find-add_to, find-remove_from, remove_from-Distinct}
use cxx.Session.{new, start}
use cxx.Server.{handle_accept, clear_session}
use cxx.Server.World.{
  Peer, PeerEvent, World, Event, accepts, concerns, started, peer_step, peer_run, updated,
  with_session, session_step, world_step, run,
}

-- A session after its Start
abbrev pub opened : Peer
opened = record {
  exchange = record { session = new; outstanding = []; completed = [] };
  reading = true;
}

pub started_lem : started ≡ some (opened, false)
unfolding started start
started_lem = refl

module _ {U : Type 0} ⦃e : Eq U⦄ where
  -- The events of one session.
  abbrev pub events_of : U → List (Event U) → List PeerEvent
  events_of u [] = []
  events_of u (accepts error fresh ∷ es) = events_of u es
  events_of u (concerns v ev ∷ es) = if e.beq v u then ev ∷ events_of u es else events_of u es

  -- No session that is made in these events has the identifier `u`.
  abbrev pub Apart : U → List (Event U) → Type 0
  Apart u [] = Unit
  Apart u (accepts error fresh ∷ es) = (u ≢ fresh) × Apart u es
  Apart u (concerns v ev ∷ es) = Apart u es

  abbrev pub accepted : World U → U → World U
  accepted w fresh = record {
    peers = add_to w.accepting opened w.peers;
    kept = insert (w.accepting, w.accepting) w.kept;
    accepting = fresh;
  }

  pub accepts_lem :
      (w : World U) (fresh : U) → world_step w (accepts false fresh) ≡ some (accepted w fresh)
  unfolding world_step handle_accept started start
  accepts_lem w fresh = refl

  pub accept_fails_lem :
      (w : World U) (fresh : U)
      → world_step w (accepts true fresh) ≡ some (record w { accepting = fresh })
  unfolding world_step handle_accept
  accept_fails_lem w fresh = refl

  pub concerns_lem :
      (w : World U) (v : U) (ev : PeerEvent)
      → world_step w (concerns v ev) ≡ session_step w v ev (find_entry_for v w.peers)
  unfolding world_step
  concerns_lem w v ev = refl

  -- What the server knows of one session.
  pub record Knows (w : World U) (u : U) (p : Peer) (kept : Option U) : Type 0 where
    pub peer : find_entry_for u w.peers ≡ some p
    pub distinct : Distinct w.kept
    pub listed : find_entry_for u w.kept ≡ kept

  pub insert-Distinct : (k v : U) (m : List (U × U)) → Distinct m → Distinct (insert (k, v) m)
  unfolding insert
  insert-Distinct k v m d = by_entry (find_entry_for k m) refl
    where
      by_entry : (o : Option U) → find_entry_for k m ≡ o → Distinct (insert (k, v) m)
      by_entry none h = rw (h, insert) (h, d)
      by_entry (some v') h = rw (h, insert) d

  find-insert :
      (j k v : U) (m : List (U × U))
      → j ≢ k
      → find_entry_for j (insert (k, v) m) ≡ find_entry_for j m
  unfolding insert find_entry_for
  find-insert j k v m n = by_entry (find_entry_for k m) refl
    where
      by_entry :
          (o : Option U)
          → find_entry_for k m ≡ o
          → find_entry_for j (insert (k, v) m) ≡ find_entry_for j m
      by_entry none h = rw (h, insert) (ground (arith, e.beq_iff k j))
      by_entry (some v') h = rw (h, insert) refl

  cleared_others :
      (u v : U) (cleared : Bool) (m : List (U × U))
      → v ≢ u
      → Distinct m
      → find_entry_for u (if cleared then clear_session m v else m) ≡ find_entry_for u m
  unfolding clear_session
  cleared_others u v true m n d =
      let other : e.beq v u ≡ false = ground (arith, e.beq_iff v u) in
      rw (find-remove_from u v m d, other) refl
  cleared_others u v false m n d = refl

  cleared_own :
      (u : U) (cleared : Bool) (m : List (U × U))
      → Distinct m
      → find_entry_for u (if cleared then clear_session m u else m)
        ≡ (if cleared then none else find_entry_for u m)
  unfolding clear_session
  cleared_own u true m d =
      let same : e.beq u u ≡ true = ground (arith, e.beq_iff u u) in
      rw (find-remove_from u u m d, same) refl
  cleared_own u false m d = refl

  pub cleared-Distinct :
      (u : U) (cleared : Bool) (m : List (U × U))
      → Distinct m
      → Distinct (if cleared then clear_session m u else m)
  unfolding clear_session
  cleared-Distinct u true m d = remove_from-Distinct u m d
  cleared-Distinct u false m d = d

  pub find-add_to-other :
      (u v : U) (q : Peer) (m : List (U × Peer))
      → v ≢ u
      → find_entry_for u (add_to v q m) ≡ find_entry_for u m
  find-add_to-other u v q m n =
      let other : e.beq v u ≡ false = ground (arith, e.beq_iff v u) in
      rw (find-add_to u v q m, other) refl

  pub find-add_to-same :
      (u : U) (q : Peer) (m : List (U × Peer)) → find_entry_for u (add_to u q m) ≡ some q
  find-add_to-same u q m =
      let same : e.beq u u ≡ true = ground (arith, e.beq_iff u u) in
      rw (find-add_to u u q m, same) refl

  -- An event of another session.
  other-Knows :
      (w : World U) (u v : U) (p q : Peer) (k : Option U) (cleared : Bool)
      → v ≢ u
      → Knows w u p k
      → Knows (updated w v q cleared) u p k
  other-Knows w u v p q k cleared n h = record {
    peer = find-add_to-other u v q w.peers n ∙ h.peer;
    distinct = cleared-Distinct v cleared w.kept h.distinct;
    listed = cleared_others u v cleared w.kept n h.distinct ∙ h.listed;
  }

  own-Knows :
      (w : World U) (u : U) (p q : Peer) (k : Option U) (cleared : Bool)
      → Knows w u p k
      → Knows (updated w u q cleared) u q (if cleared then none else k)
  own-Knows w u p q k cleared h = record {
    peer = find-add_to-same u q w.peers;
    distinct = cleared-Distinct u cleared w.kept h.distinct;
    listed =
        cleared_own u cleared w.kept h.distinct ∙ ap (λ t. if cleared then none else t) h.listed;
  }

  accepted-Knows :
      (w : World U) (u fresh : U) (p : Peer) (k : Option U)
      → u ≢ w.accepting
      → Knows w u p k
      → Knows (accepted w fresh) u p k
  accepted-Knows w u fresh p k n h = record {
    peer = find-add_to-other u w.accepting opened w.peers (λ c. n (sym c)) ∙ h.peer;
    distinct = insert-Distinct w.accepting w.accepting w.kept h.distinct;
    listed = find-insert u w.accepting w.accepting w.kept n ∙ h.listed;
  }

  -- The end of a session's run by itself, and of the server's.
  pub record Ends (u : U) (w' : World U) (k : Option U) (r : Option (Peer × Bool)) : Type 0 where
    pub last : Peer
    pub cleared : Bool
    pub result : r ≡ some (last, cleared)
    pub knows : Knows w' u last (if cleared then none else k)

  abbrev pub continue : List (Event U) → Option (World U) → Option (World U)
  continue es none = none
  continue es (some w) = run es w

  pub run-continue :
      (ev : Event U) (es : List (Event U)) (w : World U)
      → run (ev ∷ es) w ≡ continue es (world_step w ev)
  unfolding run
  run-continue ev es w = by_step (world_step w ev) refl
    where
      by_step :
          (o : Option (World U))
          → world_step w ev ≡ o
          → run (ev ∷ es) w ≡ continue es (world_step w ev)
      by_step none h = rw (h, run)
      by_step (some w') h = rw (h, run)

  -- An event of the session itself, and then the others.
  own-Ends :
      (es : List (Event U)) (w w' : World U) (u : U) (p : Peer) (k : Option U) (ev : PeerEvent)
      (r : Option (Peer × Bool))
      → peer_step p ev ≡ r
      → continue es (with_session w u r) ≡ some w'
      → ((q : Peer) (cleared : Bool)
          → run es (updated w u q cleared) ≡ some w'
          → Ends u w' (if cleared then none else k) (peer_run (events_of u es) q))
      → Ends u w' k (peer_run (ev ∷ events_of u es) p)
  unfolding peer_run
  own-Ends es w w' u p k ev none s r ih = absurd (cc)
  own-Ends es w w' u p k ev (some (q, true)) s r ih =
      let l = ih q true r in
      record {
        last = l.last;
        cleared = true;
        result = rw (s, peer_run) (rw (l.result));
        knows = elim (Bool-cases l.cleared) [
          | inl c ↦ subst (λ b. Knows w' u l.last (if b then none else none)) c l.knows
          | inr c ↦ subst (λ b. Knows w' u l.last (if b then none else none)) c l.knows
        ];
      }
  own-Ends es w w' u p k ev (some (q, false)) s r ih =
      let l = ih q false r in
      record {
        last = l.last;
        cleared = l.cleared;
        result = rw (s, peer_run) (rw (l.result));
        knows = l.knows;
      }

  -- An event of another session, and then the others.
  other-Ends :
      (es : List (Event U)) (w w' : World U) (v : U) (ev : PeerEvent) (o : Option Peer) (B : Type 0)
      → continue es (session_step w v ev o) ≡ some w'
      → (run es w ≡ some w' → B)
      → ((q : Peer) (cleared : Bool) → run es (updated w v q cleared) ≡ some w' → B)
      → B
  other-Ends es w w' v ev none B r same changed = same r
  other-Ends es w w' v ev (some p) B r same changed = by_step (peer_step p ev) r
    where
      by_step : (o : Option (Peer × Bool)) → continue es (with_session w v o) ≡ some w' → B
      by_step none h = absurd (cc)
      by_step (some (q, cleared)) h = changed q cleared h

  -- A server whose run has not ended by an exception has taken each session, from when it knew it,
  -- the way that the session's own events take it alone, whatever the other sessions and the
  -- acceptor do, if no later session has the same identifier; and it keeps the session, if it kept
  -- it, until the session itself has called ClearSession.
  pub run-Ends :
      (es : List (Event U)) (w w' : World U) (u : U) (p : Peer) (k : Option U)
      → Knows w u p k
      → u ≢ w.accepting
      → Apart u es
      → run es w ≡ some w'
      → Ends u w' k (peer_run (events_of u es) p)
  unfolding run
  run-Ends [] w w' u p k h n a r = record {
    last = p;
    cleared = false;
    result = unfold peer_run in refl;
    knows = subst (λ t. Knows t u p k) (some-injective w w' r) h;
  }
  run-Ends (accepts false fresh ∷ es) w w' u p k h n (m, a) r =
      run-Ends es (accepted w fresh) w' u p k (accepted-Knows w u fresh p k n h) m a
        (sym (run-continue (accepts false fresh) es w ∙ ap (continue es) (accepts_lem w fresh)) ∙ r)
  run-Ends (accepts true fresh ∷ es) w w' u p k h n (m, a) r =
      run-Ends es (record w { accepting = fresh }) w' u p k
        (record { peer = h.peer; distinct = h.distinct; listed = h.listed }) m a
        (sym (run-continue (accepts true fresh) es w ∙ ap (continue es) (accept_fails_lem w fresh))
          ∙ r)
  run-Ends (concerns v ev ∷ es) w w' u p k h n a r =
      let at_v : continue es (session_step w v ev (find_entry_for v w.peers)) ≡ some w' =
        sym (run-continue (concerns v ev) es w ∙ ap (continue es) (concerns_lem w v ev)) ∙ r in
      elim (Bool-cases (e.beq v u)) [
        | inl same ↦
            let is_own : v ≡ u = ground (arith, e.beq_iff v u) in
            let at_u : continue es (session_step w u ev (find_entry_for u w.peers)) ≡ some w' =
              subst (λ t. continue es (session_step w t ev (find_entry_for t w.peers)) ≡ some w')
                is_own at_v in
            let here : continue es (with_session w u (peer_step p ev)) ≡ some w' =
              subst (λ o. continue es (session_step w u ev o) ≡ some w') h.peer at_u in
            rw same (
              own-Ends es w w' u p k ev (peer_step p ev) refl here (λ q cleared s.
                run-Ends es (updated w u q cleared) w' u q (if cleared then none else k)
                  (own-Knows w u p q k cleared h) n a s))
        | inr other ↦
            let apart : v ≢ u = ground (arith, e.beq_iff v u) in
            rw other (
              other-Ends es w w' v ev (find_entry_for v w.peers) _ at_v
                (λ s. run-Ends es w w' u p k h n a s)
                (λ q cleared s.
                  run-Ends es (updated w v q cleared) w' u p k
                    (other-Knows w u v p q k cleared apart h) n a s))
      ]
