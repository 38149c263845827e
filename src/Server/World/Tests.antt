-- ===== src/Server/World/Tests.antt =====
-- A server with two sessions, one of which fails while the other one is served.
use cxx.Common.{ℕ, ◌≡◌, refl, true, false, none, some, List, [], ◌∷◌, ◌++◌, nat_eq, arith}
use cxx.SafeMap.{find_entry_for, add_to, insert, remove_from}
use cxx.Session.{new, close, start as start_session}
use cxx.Session.HandleRead.{handle_read}
use cxx.Session.Frame.{feed, feed_all}
use cxx.Session.Writes.{start}
use cxx.Session.Echo.{new-Repr}
use cxx.Server.{handle_accept, clear_session}
use cxx.Server.World.{
  receives, read_fails, sent, World, Event, accepts, concerns, listening, started, peer_step,
  peer_run, world_step, run,
}
use cxx.Server.World.Isolation.{opened, Knows, Ends, run-Ends}
use cxx.Server.World.Survival.{NonNegative, run_goes_on}
use cxx.Server.World.Echo.{Echoed, echo_among}
use cxx.Server.World.Throws.{negative_length_ends}

abbrev early : List (Event ℕ)
early = accepts false 6 ∷ accepts true 7 ∷ []

-- Session 5 gets a half of a length and fails; session 7 gets one message.
abbrev late : List (Event ℕ)
late =
    concerns 5 (receives 0 [])
    ∷ concerns 7 (receives 0 (1 ∷ []))
    ∷ concerns 5 read_fails
    ∷ concerns 7 (receives 9 [])
    ∷ concerns 7 sent
    ∷ []

abbrev one_session : World ℕ
one_session = record { peers = (5, opened) ∷ []; kept = (5, 5) ∷ []; accepting = 7 }

before_accept : run early (listening 5) ≡ some one_session
unfolding run world_step handle_accept started start_session insert find_entry_for add_to
before_accept = refl

not_kept : find_entry_for 7 one_session.kept ≡ none
unfolding find_entry_for
not_kept = refl

no_negative : NonNegative 5 (early ++ accepts false 8 ∷ late)
unfolding feed_all feed
no_negative = ((λ c. cc), ((λ c. cc), tt))

run_goes_on_example : (w : World ℕ) × (run (early ++ accepts false 8 ∷ late) (listening 5) ≡ some w)
run_goes_on_example = run_goes_on 5 (early ++ accepts false 8 ∷ late) no_negative

echo_among_example :
    (w : World ℕ) × (run (early ++ accepts false 8 ∷ late) (listening 5) ≡ some w)
    × Echoed w 7 ((9 ∷ []) ∷ [])
echo_among_example =
    echo_among 5 8 early late one_session ((9 ∷ []) ∷ []) before_accept not_kept
      (λ c. omega (arith, c)) tt no_negative (omega arith, tt) (omega arith) tt refl

has_5 : find_entry_for 5 one_session.peers ≡ some opened
unfolding find_entry_for
has_5 = refl

negative_length_ends_example : run (concerns 5 (receives 255 (0 ∷ [])) ∷ late) one_session ≡ none
negative_length_ends_example =
    negative_length_ends one_session 5 start 255 0 [] late has_5 new-Repr (omega arith)
      (omega arith) (omega arith) (λ c. omega (arith, c))

known_5 : Knows one_session 5 opened (some 5)
unfolding find_entry_for
known_5 = record { peer = refl; distinct = (refl, tt); listed = refl }

-- The read of session 5 fails, and then the accept.
abbrev session_5_closed : World ℕ
session_5_closed = record {
  peers =
      (
        5,
        record {
          exchange = record { session = close new; outstanding = []; completed = [] };
          reading = false;
        },
      )
      ∷ [];
  kept = [];
  accepting = 8;
}

abbrev failing : List (Event ℕ)
failing = concerns 5 read_fails ∷ accepts true 8 ∷ []

after_failure : run failing one_session ≡ some session_5_closed
unfolding run world_step handle_accept peer_step handle_read clear_session remove_from
    find_entry_for add_to
after_failure = refl

run-Ends_example : Ends 5 session_5_closed (some 5) (peer_run (read_fails ∷ []) opened)
run-Ends_example =
    run-Ends failing one_session session_5_closed 5 opened (some 5) known_5 (λ c. omega (arith, c))
      ((λ c. omega (arith, c)), tt) after_failure
