-- ===== src/AsioThreadPool/Threads/Tests.antt =====
-- Two contexts that count their work.
use cxx.Common.{ℕ, ◌+◌, ◌-◌, ◌≡◌, refl, false, List, [], ◌∷◌, ◌==◌}
use cxx.AsioThreadPool.Threads.{
  IoContext, Counts, Event, starts, finishes, create, run, reset_all, joins,
}
use cxx.AsioThreadPool.Threads.Ends.{NoneEnds, all_done, ends_lem}

abbrev counter : IoContext ℕ
counter = record {
  fresh = 0;
  work_started = λ c. c + 1;
  work_finished = λ c. c - 1;
  work = λ c. c;
  run_returns = λ c. c == 0;
}

counted : Counts counter
counted = record {
  none_at_first = refl;
  started = λ c. refl;
  finished = λ c. refl;
  returns = λ c. refl;
}

abbrev jobs : List Event
jobs = starts 0 ∷ starts 1 ∷ finishes 1 ∷ starts 0 ∷ finishes 0 ∷ finishes 1 ∷ []

ends_lem_example :
    NoneEnds counter (run counter jobs (create counter 2))
    × (joins counter (reset_all counter (run counter jobs (create counter 2)))
        ≡ all_done counter (run counter jobs (create counter 2)))
ends_lem_example = ends_lem counter 2 jobs counted

-- One piece of work is left at the first context.
one_left : joins counter (reset_all counter (run counter jobs (create counter 2))) ≡ false
unfolding joins reset_all run create
one_left = refl
