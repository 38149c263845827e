-- ===== src/Channel/Tests.antt =====
-- A channel of capacity 0.
use cxx.Common.{ℕ, ◌≡◌, refl, arith, true, false, some, [], ◌∷◌, ◌++◌}
use cxx.Channel.{Channel, new, send, stop, Run, done, next, sent}
use cxx.Channel.Order.{run-queue, Fits, run-Fits, recv_many, stop_drains}

abbrev full : Channel ℕ
full = record { queue = 5 ∷ []; capacity = 0; stopped = false }

accepted : send 5 (new 0) ≡ some (true, full)
unfolding send new
accepted = refl

one_send : Run (new 0) (5 ∷ []) [] full
one_send = next (new 0) full full (5 ∷ []) [] [] [] (sent (new 0) full 5 accepted) (done full)

new-Fits : Fits (new {T = ℕ} 0)
unfolding new
new-Fits = omega arith

run-queue_example : (new 0).queue ++ 5 ∷ [] ≡ [] ++ full.queue
run-queue_example = run-queue (new 0) full (5 ∷ []) [] one_send

run-Fits_example : Fits full
run-Fits_example = run-Fits (new 0) full (5 ∷ []) [] new-Fits one_send

stop_drains_example :
    (send 6 (stop full) ≡ some (false, stop full))
    × (recv_many 2 (stop full) ≡ some (5 ∷ [], record { queue = []; capacity = 0; stopped = true }))
stop_drains_example = stop_drains 6 full
