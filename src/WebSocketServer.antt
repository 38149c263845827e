-- ===== src/WebSocketServer.antt =====
-- The coroutine of the constructor of WebSocketServer (include/chat/WebSocketServer.hpp), which
-- accepts connections. The socket and its accept belong to Boost.Asio and are a parameter.
pub mod Accepts
mod Tests
use cxx.Common.{ℕ, ◌+◌, ◌≡◌, Bool, true, false, Option, none, some, List, [], ◌∷◌, if◌then◌else◌}

-- A new socket, whether a socket is open, and async_accept into it of a connection, or of an error,
-- that comes in; `none` is the exception that co_await throws.
pub record Sockets (S N : Type 0) : Type 0 where
  pub fresh : S
  pub is_open : S → Bool
  pub async_accept : S → N → Option S

-- What Boost.Asio says of them: an accept into a socket that is open fails (already_open), and one
-- that does not fail opens it.
pub record Opens {S N : Type 0} (io : Sockets S N) : Type 0 where
  pub already_open : (s : S) (c : N) → io.is_open s ≡ true → io.async_accept s c ≡ none
  pub opened : (s t : S) (c : N) → io.async_accept s c ≡ some t → io.is_open t ≡ true

-- `socket_`, whether the coroutine is in its loop, and how many connections it has posted a handler
-- for. The body of that handler is a comment, so it changes nothing.
pub record WebSocketServer (S : Type 0) : Type 0 where
  pub socket : S
  pub in_loop : Bool
  pub posted : ℕ

module _ {S N : Type 0} (io : Sockets S N) where
  unfoldable pub new : WebSocketServer S
  new = record { socket = io.fresh; in_loop = true; posted = 0 }

  -- What co_await gives, and then the post; an exception leaves the loop, and nobody sees it since
  -- the coroutine is detached.
  abbrev pub after_accept : WebSocketServer S → Option S → WebSocketServer S
  after_accept w none = record w { in_loop = false }
  after_accept w (some s) = record w { socket = s; posted = w.posted + 1 }

  -- One round of the loop
  unfoldable pub accept_round : WebSocketServer S → N → WebSocketServer S
  accept_round w c = if w.in_loop then after_accept w (io.async_accept w.socket c) else w

  unfoldable pub serve : List N → WebSocketServer S → WebSocketServer S
  serve [] w = w
  serve (c ∷ cs) w = serve cs (accept_round w c)
