-- ===== src/Server/World.antt =====
-- The server with all of its sessions: CServer of include/asio/CServer.h and CServer.cpp, each of
-- its sessions with its socket, and io_context::run, which calls one handler after another. A
-- session goes by its identifier. Which operation completes next, and how, is a sequence of events.
pub mod Isolation
mod Writing
mod Live
mod Alone
mod Runs
pub mod Throws
pub mod Survival
pub mod Echo
mod Tests
use cxx.Common.{
  ℕ, Bool, true, false, ◌||◌, Option, none, some, List, [], ◌∷◌, ◌++◌, if◌then◌else◌, Eq,
}
use cxx.SafeMap.{find_entry_for, add_to}
use cxx.Session.{
  Effect as SessionEffect, read_some, write, clear_session as clear, close_socket, Result, done,
  exception, fault, out_of_fuel, new, start, handle_write,
}
use cxx.Session.HandleRead.{handle_read}
use cxx.Session.Writes.{Exchange, after_send}
use cxx.Server.{Effect, async_accept, start as start_session, handle_accept, clear_session}

-- A session with its socket, and whether it waits for a read.
pub record Peer : Type 0 where
  pub exchange : Exchange
  pub reading : Bool

-- What completes at a session: a read of at least one byte, or the write that was started first,
-- and each of them with an error. Where there is no such operation, nothing does.
pub data PeerEvent : Type 0 where
  receives : ℕ → List ℕ → PeerEvent
  read_fails : PeerEvent
  sent : PeerEvent
  write_fails : PeerEvent

-- whether a handler has started a read
abbrev pub reads : List SessionEffect → Bool
reads [] = false
reads (read_some ∷ out) = true
reads (write bytes ∷ out) = reads out
reads (clear ∷ out) = reads out
reads (close_socket ∷ out) = reads out

-- whether it has called ClearSession
abbrev pub clears : List SessionEffect → Bool
clears [] = false
clears (clear ∷ out) = true
clears (read_some ∷ out) = clears out
clears (write bytes ∷ out) = clears out
clears (close_socket ∷ out) = clears out

-- How a handler leaves the session, and whether it has called ClearSession; `none`: an exception
-- has left it, or it has done what has no defined meaning.
abbrev pub after_read : Exchange → Result → Option (Peer × Bool)
after_read x (done s out) =
    some (record { exchange = after_send x (s, out); reading = reads out }, clears out)
after_read x exception = none
after_read x fault = none
after_read x out_of_fuel = none

abbrev pub after_write : Bool → Exchange → Result → Option (Peer × Bool)
after_write reading x (done s out) =
    some (record { exchange = after_send x (s, out); reading = reading }, clears out)
after_write reading x exception = none
after_write reading x fault = none
after_write reading x out_of_fuel = none

-- The completion of the first of the writes that are outstanding.
abbrev pub write_ends : Bool → Peer → List (List ℕ) → Option (Peer × Bool)
write_ends error p [] = some (p, false)
write_ends true p (bytes ∷ rest) =
    after_write p.reading (record p.exchange { outstanding = rest })
      (handle_write p.exchange.session true)
write_ends false p (bytes ∷ rest) =
    after_write p.reading
      (record p.exchange { outstanding = rest; completed = p.exchange.completed ++ bytes ∷ [] })
      (handle_write p.exchange.session false)

abbrev pub read_ends : Bool → Peer → List ℕ → Option (Peer × Bool)
read_ends error p bytes =
    if p.reading
    then after_read p.exchange (handle_read p.exchange.session error bytes)
    else some (p, false)

unfoldable pub peer_step : Peer → PeerEvent → Option (Peer × Bool)
peer_step p (receives b rest) = read_ends false p (b ∷ rest)
peer_step p read_fails = read_ends true p []
peer_step p sent = write_ends false p p.exchange.outstanding
peer_step p write_fails = write_ends true p p.exchange.outstanding

abbrev pub also_cleared : Bool → Option (Peer × Bool) → Option (Peer × Bool)
also_cleared cleared none = none
also_cleared cleared (some (p, later)) = some (p, cleared || later)

-- One session by itself.
unfoldable pub peer_run : List PeerEvent → Peer → Option (Peer × Bool)
peer_run [] p = some (p, false)
peer_run (e ∷ es) p = elim (peer_step p e) [
  | none ↦ none
  | some (p', cleared) ↦ also_cleared cleared (peer_run es p')
]

-- A session that the acceptor has connected, after its Start.
unfoldable pub started : Option (Peer × Bool)
started = after_read (record { session = new; outstanding = []; completed = [] }) (start new)

-- The sessions that have been started, those that `_sessions` keeps, and the one that the acceptor
-- waits with.
pub record World (U : Type 0) : Type 0 where
  pub peers : List (U × Peer)
  pub kept : List (U × U)
  pub accepting : U

-- The end of an accept, with an error or without, and the identifier of the session that StartAccept
-- makes; or an event of a session.
pub data Event (U : Type 0) : Type 0 where
  accepts : Bool → U → Event U
  concerns : U → PeerEvent → Event U

-- The constructor of CServer.
abbrev pub listening : {U : Type 0} → U → World U
listening first = record { peers = []; kept = []; accepting = first }

module _ {U : Type 0} ⦃e : Eq U⦄ where
  -- The calls of the acceptor and of a new session.
  abbrev pub perform : List (Effect U) → World U → Option (World U)
  perform [] w = some w
  perform (async_accept u ∷ out) w = perform out (record w { accepting = u })
  perform (start_session u ∷ out) w = elim started [
    | none ↦ none
    | some (p, cleared) ↦ perform out (record w { peers = add_to u p w.peers })
  ]

  abbrev pub updated : World U → U → Peer → Bool → World U
  updated w u p cleared = record w {
    peers = add_to u p w.peers;
    kept = if cleared then clear_session w.kept u else w.kept;
  }

  abbrev pub with_session : World U → U → Option (Peer × Bool) → Option (World U)
  with_session w u none = none
  with_session w u (some (p, cleared)) = some (updated w u p cleared)

  abbrev pub session_step : World U → U → PeerEvent → Option Peer → Option (World U)
  session_step w u ev none = some w
  session_step w u ev (some p) = with_session w u (peer_step p ev)

  unfoldable pub world_step : World U → Event U → Option (World U)
  world_step w (accepts error fresh) =
      let r = handle_accept w.kept w.accepting w.accepting error fresh in
      perform r.1 (record w { kept = r.0 })
  world_step w (concerns u ev) = session_step w u ev (find_entry_for u w.peers)

  -- io_context::run; an exception that leaves a handler leaves it as well, and ends the server.
  unfoldable pub run : List (Event U) → World U → Option (World U)
  run [] w = some w
  run (ev ∷ es) w = elim (world_step w ev) [ none ↦ none | some w' ↦ run es w' ]
