-- ===== src/WebSocketServer/Accepts.antt =====
-- How many connections the server accepts.
use cxx.Common.{
  ◌≤◌, ◌≡◌, ◌∙◌, refl, sym, ap, subst, Bool, true, false, Option, none, some, List, [], ◌∷◌, arith,
  if◌then◌else◌, ◌⊎◌, inl, inr,
}
use cxx.WebSocketServer.{Sockets, Opens, WebSocketServer, new, after_accept, accept_round, serve}

module _ {S N : Type 0} (io : Sockets S N) where
  -- The loop has been left.
  abbrev HasLeft : WebSocketServer S → Type 0
  HasLeft w = (w.in_loop ≡ false) × (w.posted ≤ 1)

  -- One connection has been accepted, into a socket that is open now.
  abbrev HasOne : WebSocketServer S → Type 0
  HasOne w = (w.in_loop ≡ true) × (w.posted ≡ 1) × (io.is_open w.socket ≡ true)

  by_loop :
      (w : WebSocketServer S) (c : N) (b : Bool)
      → w.in_loop ≡ b
      → accept_round io w c ≡ (if b then after_accept io w (io.async_accept w.socket c) else w)
  unfolding accept_round
  by_loop w c b e = ap (λ t. if t then after_accept io w (io.async_accept w.socket c) else w) e

  left_round : (w : WebSocketServer S) (c : N) → HasLeft w → HasLeft (accept_round io w c)
  left_round w c (e, h) = subst HasLeft (sym (by_loop w c false e)) (e, h)

  one_round : (w : WebSocketServer S) (c : N) → Opens io → HasOne w → HasLeft (accept_round io w c)
  one_round w c l (e, n, o) =
      subst HasLeft
        (sym (by_loop w c true e ∙ ap (after_accept io w) (l.already_open w.socket c o)))
        (refl, omega (arith, n))

  first_round :
      (c : N)
      → Opens io
      → HasLeft (accept_round io (new io) c) ⊎ HasOne (accept_round io (new io) c)
  unfolding new
  first_round c l = by_result (io.async_accept io.fresh c) refl
    where
      by_result :
          (o : Option S)
          → io.async_accept io.fresh c ≡ o
          → HasLeft (accept_round io (new io) c) ⊎ HasOne (accept_round io (new io) c)
      by_result none e = inl (
          subst HasLeft (sym (by_loop (new io) c true refl ∙ ap (after_accept io (new io)) e))
            (refl, omega arith))
      by_result (some t) e = inr (
          subst HasOne (sym (by_loop (new io) c true refl ∙ ap (after_accept io (new io)) e))
            (refl, refl, l.opened io.fresh t c e))

  left_serve : (cs : List N) (w : WebSocketServer S) → HasLeft w → HasLeft (serve io cs w)
  unfolding serve
  left_serve [] w h = h
  left_serve (c ∷ cs) w h = left_serve cs (accept_round io w c) (left_round w c h)

  -- Whatever connections come in, two or more, the server accepts at most one of them, and its
  -- coroutine has left its loop.
  pub serve_lem :
      (first second : N) (others : List N)
      → Opens io
      → let w = serve io (first ∷ second ∷ others) (new io) in (w.in_loop ≡ false) × (w.posted ≤ 1)
  unfolding serve
  serve_lem first second others l = by_first (first_round first l)
    where
      by_first :
          HasLeft (accept_round io (new io) first) ⊎ HasOne (accept_round io (new io) first)
          → HasLeft (serve io others (accept_round io (accept_round io (new io) first) second))
      by_first (inl h) = left_serve others _ (left_round _ second h)
      by_first (inr h) = left_serve others _ (one_round _ second l h)
