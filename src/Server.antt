-- ===== src/Server.antt =====
-- CServer of include/asio/CServer.cpp and CServer.h: the sessions that it keeps alive. A session is
-- a value of a type `S`, and an identifier of one with an equality test; the calls of the acceptor
-- and of a session are effects in order.
pub mod Sessions
pub mod World
use cxx.Common.{Bool, true, false, List, [], ◌∷◌, ◌++◌, Eq}
use cxx.SafeMap.{insert, remove_from}

-- `async_accept s`: the acceptor waits for a peer for the session `s`. `start s`: its Start.
pub data Effect {ℓ} (S : Type ℓ) : Type ℓ where
  async_accept : S → Effect S
  start : S → Effect S

-- StartAccept; the new session is an argument.
abbrev pub start_accept {ℓ} : {S : Type ℓ} → S → List (Effect S)
start_accept fresh = async_accept fresh ∷ []

module _ {ℓ} {U S : Type ℓ} ⦃e : Eq U⦄ where
  -- HandleAccept, with the identifier of its session and the session that StartAccept makes. The
  -- server is the map `_sessions`.
  unfoldable pub handle_accept : List (U × S) → U → S → Bool → S → List (U × S) × List (Effect S)
  unfolding insert
  handle_accept sessions uuid s true fresh = (sessions, start_accept fresh)
  handle_accept sessions uuid s false fresh =
      (insert (uuid, s) sessions, start s ∷ start_accept fresh)

  unfoldable pub clear_session : List (U × S) → U → List (U × S)
  unfolding remove_from
  clear_session sessions uuid = remove_from uuid sessions
