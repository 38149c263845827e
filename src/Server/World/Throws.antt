-- ===== src/Server/World/Throws.antt =====
-- What ends the server.
use cxx.Common.{ℕ, ◌+◌, ◌*◌, ◌≤◌, ◌<◌, ◌≡◌, ◌≢◌, ◌∙◌, ap, none, some, List, ◌∷◌, Eq}
use cxx.SafeMap.{find_entry_for}
use cxx.Session.Turns.{Repr}
use cxx.Session.Frame.{idle}
use cxx.Session.Writes.{Exchange}
use cxx.Session.Echo.{negative_length}
use cxx.Server.World.{
  receives, World, Event, concerns, after_read, peer_step, with_session, session_step, run,
}
use cxx.Server.World.Isolation.{concerns_lem, continue, run-continue}
use cxx.Server.World.Alone.{open_peer}

module _ {U : Type 0} ⦃e : Eq U⦄ where
  -- A session that waits for the first byte of a message, among any others, and a peer that sends a
  -- length with its high bit set, other than 0xffff: the exception of its handler leaves
  -- io_context::run, and no session is served any more.
  pub negative_length_ends :
      (w : World U) (u : U) (x : Exchange) (hi lo : ℕ) (rest : List ℕ) (es : List (Event U))
      → find_entry_for u w.peers ≡ some (open_peer x)
      → Repr idle x.session
      → 128 ≤ hi
      → hi < 256
      → lo < 256
      → hi * 256 + lo ≢ 65535
      → run (concerns u (receives hi (lo ∷ rest)) ∷ es) w ≡ none
  negative_length_ends w u x hi lo rest es f r a b c d =
      let stepped : peer_step (open_peer x) (receives hi (lo ∷ rest)) ≡ none =
        unfold peer_step in (ap (after_read x) (negative_length x.session hi lo rest r a b c d)) in
      run-continue (concerns u (receives hi (lo ∷ rest))) es w
      ∙ ap (continue es) (
          concerns_lem w u (receives hi (lo ∷ rest))
          ∙ ap (session_step w u (receives hi (lo ∷ rest))) f
          ∙ ap (with_session w u) stepped)
