-- ===== src/Server/World/Runs.antt =====
-- Runs of the server in two parts, and the identifiers that it keeps.
use cxx.Common.{
  ◌≡◌, ◌∙◌, refl, sym, ap, subst, Bool, true, false, Option, none, some, List, [], ◌∷◌, ◌++◌, Eq,
}
use mathlib.Core.Option.{some-injective}
use cxx.SafeMap.{find_entry_for}
use cxx.SafeMap.Bucket.{Distinct}
use cxx.Server.World.{
  Peer, World, Event, accepts, concerns, peer_step, with_session, updated, session_step, world_step,
  run,
}
use cxx.Server.World.Isolation.{
  accepted, accepts_lem, accept_fails_lem, concerns_lem, continue, run-continue, cleared-Distinct,
  insert-Distinct,
}

module _ {U : Type 0} ⦃e : Eq U⦄ where
  continue-append :
      (xs ys : List (Event U)) (o : Option (World U))
      → ((w : World U) → run (xs ++ ys) w ≡ continue ys (run xs w))
      → continue (xs ++ ys) o ≡ continue ys (continue xs o)
  continue-append xs ys none ih = refl
  continue-append xs ys (some w) ih = ih w

  pub run-append :
      (xs ys : List (Event U)) (w : World U) → run (xs ++ ys) w ≡ continue ys (run xs w)
  run-append [] ys w = unfold run in refl
  run-append (ev ∷ xs) ys w =
      run-continue ev (xs ++ ys) w
      ∙ continue-append xs ys (world_step w ev) (λ w'. run-append xs ys w')
      ∙ ap (continue ys) (sym (run-continue ev xs w))

  session-Distinct :
      (w w' : World U) (v : U) (r : Option (Peer × Bool))
      → Distinct w.kept
      → with_session w v r ≡ some w'
      → Distinct w'.kept
  session-Distinct w w' v none d h = absurd (cc)
  session-Distinct w w' v (some (p, cleared)) d h =
      subst (λ t. Distinct t.kept) (some-injective (updated w v p cleared) w' h)
        (cleared-Distinct v cleared w.kept d)

  step-Distinct :
      (ev : Event U) (w w' : World U)
      → Distinct w.kept
      → world_step w ev ≡ some w'
      → Distinct w'.kept
  step-Distinct (accepts false fresh) w w' d h =
      subst (λ t. Distinct t.kept)
        (some-injective (accepted w fresh) w' (sym (accepts_lem w fresh) ∙ h))
        (insert-Distinct w.accepting w.accepting w.kept d)
  step-Distinct (accepts true fresh) w w' d h =
      subst (λ t. Distinct t.kept)
        (some-injective (record w { accepting = fresh }) w' (sym (accept_fails_lem w fresh) ∙ h)) d
  step-Distinct (concerns v ev) w w' d h =
      by_peer (find_entry_for v w.peers) (sym (concerns_lem w v ev) ∙ h)
    where
      by_peer : (o : Option Peer) → session_step w v ev o ≡ some w' → Distinct w'.kept
      by_peer none h' = subst (λ t. Distinct t.kept) (some-injective w w' h') d
      by_peer (some p) h' = session-Distinct w w' v (peer_step p ev) d h'

  continue-Distinct :
      (es : List (Event U)) (ev : Event U) (w w' : World U) (o : Option (World U))
      → Distinct w.kept
      → world_step w ev ≡ o
      → continue es o ≡ some w'
      → ((v : World U) → Distinct v.kept → run es v ≡ some w' → Distinct w'.kept)
      → Distinct w'.kept
  continue-Distinct es ev w w' none d s h ih = absurd (cc)
  continue-Distinct es ev w w' (some v) d s h ih = ih v (step-Distinct ev w v d s) h

  pub run-Distinct :
      (es : List (Event U)) (w w' : World U)
      → Distinct w.kept
      → run es w ≡ some w'
      → Distinct w'.kept
  run-Distinct [] w w' d h = unfold run in subst (λ t. Distinct t.kept) (some-injective w w' h) d
  run-Distinct (ev ∷ es) w w' d h =
      continue-Distinct es ev w w' (world_step w ev) d refl (sym (run-continue ev es w) ∙ h)
        (λ v d' h'. run-Distinct es v w' d' h')
