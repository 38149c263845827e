-- ===== src/WebSocketServer/Tests.antt =====
-- Sockets that are open or closed.
use cxx.Common.{ℕ, ◌≤◌, ◌≡◌, refl, Bool, true, false, Option, none, some, [], ◌∷◌}
use cxx.WebSocketServer.{Sockets, Opens, new, accept_round, serve}
use cxx.WebSocketServer.Accepts.{serve_lem}

abbrev accept_into : Bool → ℕ → Option Bool
accept_into true c = none
accept_into false c = some true

abbrev sockets : Sockets Bool ℕ
sockets = record { fresh = false; is_open = λ s. s; async_accept = accept_into }

sockets-Opens : Opens sockets
sockets-Opens = record { already_open = λ s c e. rw e refl; opened = λ s t c e. of_accept s t c e }
  where
    of_accept : (s t : Bool) (c : ℕ) → accept_into s c ≡ some t → t ≡ true
    of_accept true t c e = absurd (cc)
    of_accept false t c e = cc

serve_lem_example :
    ((serve sockets (1 ∷ 2 ∷ 3 ∷ []) (new sockets)).in_loop ≡ false)
    × ((serve sockets (1 ∷ 2 ∷ 3 ∷ []) (new sockets)).posted ≤ 1)
serve_lem_example = serve_lem sockets 1 2 (3 ∷ []) sockets-Opens

first_one : (serve sockets (1 ∷ 2 ∷ 3 ∷ []) (new sockets)).posted ≡ 1
unfolding serve accept_round new
first_one = refl
