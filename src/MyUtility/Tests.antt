-- ===== src/MyUtility/Tests.antt =====
-- Two calls in one millisecond.
use cxx.Common.{ℕ, ◌+◌, List, [], ◌∷◌, arith}
use cxx.MyUtility.{initial}
use cxx.MyUtility.Fields.{Fits}
use cxx.MyUtility.Step.{Steady}
use cxx.MyUtility.Increasing.{ids, RisingFromFirst, ids-RisingFromFirst}

abbrev now : ℕ
now = 1700000000000

abbrev clock : List ℕ
clock = now ∷ now ∷ (now + 1) ∷ []

clock-Steady : Steady 0 clock
clock-Steady = (
  omega arith,
  (omega arith, omega arith),
  (omega arith, (omega arith, omega arith), (omega arith, (omega arith, omega arith), tt)),
)

now-Fits : Fits now 1 2 3
now-Fits = record {
  in_time = (omega arith, omega arith);
  data_center_fits = omega arith;
  machine_fits = omega arith;
  sequence_fits = omega arith;
}

ids-RisingFromFirst_example : RisingFromFirst 1 2 (ids 1 2 3 initial clock)
ids-RisingFromFirst_example =
    ids-RisingFromFirst 1 2 (omega arith) (omega arith) 3 initial clock (omega arith) clock-Steady
