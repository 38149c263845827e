-- ===== src/CircleQueue/NoLock/Pair.antt =====
-- One thread that emplaces and one that pops.
use cxx.Common.{ℕ, true, Option, List, [], ◌∷◌, ◌++◌}
use cxx.CircleQueue.NoLock.{
  Queue, Emplace, Pop, new, emplace_step, pop_step, loads_tail, tests_full, moves_tail, constructs,
  moves_tail_up, emplaced, loads_head, tests_tail, tests_tail_up, copies, moves_head, gives,
  finds_none,
}

-- `accepted`: the elements of the calls of emplace that have returned true, `received`: what the
-- calls of pop that have returned true gave, both in order.
pub record Pair {ℓ} (T : Type ℓ) : Type ℓ where
  pub queue : Queue T
  pub emplacing : Emplace T
  pub waiting : List T
  pub accepted : List T
  pub popping : Pop T
  pub received : List (Option T)

-- Which thread makes the next step
pub data Move : Type 0 where
  produce : Move
  consume : Move

module _ {ℓ} {T : Type ℓ} where
  abbrev pub accepts : Emplace T → List T
  accepts (emplaced x true) = x ∷ []
  accepts _ = []

  abbrev pub receives : Pop T → List (Option T)
  receives (gives x) = x ∷ []
  receives _ = []

  abbrev pub next_emplace : Pair T → List T → Pair T
  next_emplace s [] = s
  next_emplace s (x ∷ xs) = record s { emplacing = loads_tail x; waiting = xs }

  abbrev pub after_emplace : Pair T → Queue T × Emplace T → Pair T
  after_emplace s r = record s {
    queue = r.0;
    emplacing = r.1;
    accepted = s.accepted ++ accepts r.1;
  }

  -- A step of the first thread: of its call, or the start of the next one.
  unfoldable pub producer_step : Pair T → Emplace T → Pair T
  unfolding emplace_step
  producer_step s (emplaced x b) = next_emplace s s.waiting
  producer_step s (loads_tail x) = after_emplace s (emplace_step s.queue (loads_tail x))
  producer_step s (tests_full x t) = after_emplace s (emplace_step s.queue (tests_full x t))
  producer_step s (moves_tail x t) = after_emplace s (emplace_step s.queue (moves_tail x t))
  producer_step s (constructs x t) = after_emplace s (emplace_step s.queue (constructs x t))
  producer_step s (moves_tail_up x t) = after_emplace s (emplace_step s.queue (moves_tail_up x t))

  abbrev pub after_pop : Pair T → Queue T × Pop T → Pair T
  after_pop s r = record s { queue = r.0; popping = r.1; received = s.received ++ receives r.1 }

  -- A step of the second thread, which calls pop again and again.
  unfoldable pub consumer_step : Pair T → Pop T → Pair T
  unfolding pop_step
  consumer_step s (gives x) = record s { popping = loads_head }
  consumer_step s finds_none = record s { popping = loads_head }
  consumer_step s loads_head = after_pop s (pop_step s.queue loads_head)
  consumer_step s (tests_tail h) = after_pop s (pop_step s.queue (tests_tail h))
  consumer_step s (tests_tail_up h) = after_pop s (pop_step s.queue (tests_tail_up h))
  consumer_step s (copies h) = after_pop s (pop_step s.queue (copies h))
  consumer_step s (moves_head h x) = after_pop s (pop_step s.queue (moves_head h x))

  unfoldable pub run : List Move → Pair T → Pair T
  unfolding producer_step consumer_step
  run [] s = s
  run (produce ∷ ms) s = run ms (producer_step s s.emplacing)
  run (consume ∷ ms) s = run ms (consumer_step s s.popping)

  -- The first thread has these elements to emplace, beginning with `x`.
  abbrev pub begin : ℕ → T → List T → Pair T
  begin cap x xs = record {
    queue = new cap;
    emplacing = loads_tail x;
    waiting = xs;
    accepted = [];
    popping = loads_head;
    received = [];
  }
