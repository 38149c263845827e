-- ===== src/Session/Tests.antt =====
-- Two messages' worth of bytes through the session.
use cxx.Common.{ℕ, ◌≡◌, ◌≢◌, refl, arith, false, some, List, [], ◌∷◌}
use cxx.Session.{new}
use cxx.Session.HandleRead.{handle_read}
use cxx.Session.Frame.{idle, refused, undefined, feed_all}
use cxx.Session.Writes.{Exchange, Event, sends, completes, start, events, IsOrdered, events_lem}
use cxx.Session.Reads.{ReadsTo, handle_read_lem}
use cxx.Session.Streams.{Chunk, stream, wires, AllShort}
use cxx.Session.Dialogue.{Step, arrives, written, arrivals, dialogue, dialogue_lem}
use cxx.Session.Echo.{new-Repr}

abbrev hello : List ℕ
hello = 104 ∷ 105 ∷ []

abbrev messages : List (List ℕ)
messages = hello ∷ (7 ∷ []) ∷ []

-- The head of the first message is cut in two, and the second message comes with its end.
abbrev chunks : List Chunk
chunks = (0, []) ∷ (2, 104 ∷ []) ∷ (105, 0 ∷ 1 ∷ 7 ∷ []) ∷ []

short_messages : AllShort messages
short_messages = (omega arith, (omega arith, tt))

cut : stream chunks ≡ wires messages
cut = refl

idle_ne_refused : idle ≢ refused
idle_ne_refused e = cc

half_message : (feed_all idle (0 ∷ 2 ∷ 104 ∷ [])).0 ≢ undefined
unfolding feed_all
half_message e = cc

handle_read_lem_example :
    ReadsTo new (feed_all idle (0 ∷ 2 ∷ 104 ∷ [])) [] (handle_read new false (0 ∷ 2 ∷ 104 ∷ []))
handle_read_lem_example =
    handle_read_lem idle new 0 (2 ∷ 104 ∷ []) idle_ne_refused new-Repr half_message

-- The second message is sent while the first is being written.
abbrev sending : List Event
sending = sends hello (0 ∷ []) ∷ sends (7 ∷ []) [] ∷ completes ∷ []

events_lem_example :
    (x : Exchange) × (accepted : List (List ℕ)) × (events sending start [] ≡ some (x, accepted))
    × IsOrdered x accepted
events_lem_example = events_lem sending (omega arith, (omega arith, tt))

-- The chunks, with the completion of the first write before the last bytes.
abbrev steps : List Step
steps = arrives 0 [] ∷ arrives 2 (104 ∷ []) ∷ arrives 105 (0 ∷ 1 ∷ []) ∷ written ∷ arrives 7 [] ∷ []

cut_again : arrivals steps ≡ wires messages
cut_again = refl

dialogue_lem_example :
    (x : Exchange) × (y : Exchange) × (dialogue steps start ≡ some x)
    × IsOrdered x messages
    × (dialogue (written ∷ written ∷ []) x ≡ some y)
    × (y.completed ≡ (0 ∷ 2 ∷ 104 ∷ 105 ∷ []) ∷ (0 ∷ 1 ∷ 7 ∷ []) ∷ [])
dialogue_lem_example = dialogue_lem steps messages short_messages (omega arith) cut_again
