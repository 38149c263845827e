-- ===== src/MyUtility.antt =====
-- MyUtility of include/chat/MyUtility.hpp. The clock is a parameter: the list of what its next
-- readings give, in milliseconds since 1970, none of them negative. An identifier is the number
-- before std::to_string prints it. sha256 is a stub in the code.
pub mod Bits
pub mod Calls
pub mod Fields
pub mod Step
pub mod Increasing
mod Tests
use Prim.Native.Nat.{bit_and, bit_or}
use cxx.Common.{
  ℕ, ◌+◌, ◌-◌, ◌*◌, ◌%◌, ◌^◌, Bool, true, false, ◌||◌, Option, none, some, List, [], ◌∷◌, ltb, leb,
  ◌==◌, if◌then◌else◌,
}

abbrev pub epoch : ℕ
epoch = 1609459200000

abbrev pub max_data_center_id : ℕ
max_data_center_id = 31

abbrev pub max_machine_id : ℕ
max_machine_id = 31

abbrev pub sequence_mask : ℕ
sequence_mask = 4095

abbrev pub timestamp_left_shift : ℕ
timestamp_left_shift = 22

abbrev pub data_center_id_shift : ℕ
data_center_id_shift = 17

abbrev pub machine_id_shift : ℕ
machine_id_shift = 12

abbrev pub uint64_mod : ℕ
uint64_mod = 2 ^ 64

-- The static members
pub record Static : Type 0 where
  pub sequence : ℕ
  pub last_timestamp : ℕ

abbrev pub initial : Static
initial = record { sequence = 0; last_timestamp = 0 }

-- `uniqueId`: a difference and a shift of uint64_t, with what their operands are in the code.
unfoldable pub unique_id : ℕ → ℕ → ℕ → ℕ → ℕ
unique_id timestamp data_center machine sequence =
    bit_or
      (bit_or
        (bit_or
          (((timestamp + uint64_mod - epoch) % uint64_mod) * 2 ^ timestamp_left_shift % uint64_mod)
          (data_center * 2 ^ data_center_id_shift))
        (machine * 2 ^ machine_id_shift))
      sequence

-- How a call ends. `waits`: the readings have run out and the call wants one more.
pub data Outcome : Type 0 where
  returns : ℕ → Static → List ℕ → Outcome
  throws : Outcome
  waits : Outcome

-- The loop that waits for the next millisecond: the first reading above `last`, and those behind it.
unfoldable pub next_millisecond : ℕ → List ℕ → Option (ℕ × List ℕ)
next_millisecond last [] = none
next_millisecond last (t ∷ clock) =
    let later = next_millisecond last clock in if leb t last then later else some (t, clock)

abbrev pub finish : ℕ → ℕ → ℕ → Option (ℕ × List ℕ) → Outcome
finish data_center machine sequence none = waits
finish data_center machine sequence (some (timestamp, clock)) =
    returns (unique_id timestamp data_center machine sequence)
      (record { sequence = sequence; last_timestamp = timestamp }) clock

-- What a call does with the timestamp that it reads first.
abbrev pub at_time : Static → ℕ → ℕ → ℕ → List ℕ → Outcome
at_time s data_center machine timestamp clock =
    if timestamp == s.last_timestamp
    then (let sequence = bit_and (s.sequence + 1) sequence_mask in
        if sequence == 0
        then finish data_center machine sequence (
            if leb timestamp s.last_timestamp
            then next_millisecond s.last_timestamp clock
            else some (timestamp, clock))
        else finish data_center machine sequence (some (timestamp, clock)))
    else finish data_center machine 0 (some (timestamp, clock))

-- generateUniqueId
unfoldable pub generate_unique_id : Static → ℕ → ℕ → List ℕ → Outcome
unfolding next_millisecond unique_id
generate_unique_id s data_center machine clock =
    if ltb max_data_center_id data_center || ltb max_machine_id machine
    then throws
    else elim clock [ [] ↦ waits | t ∷ later ↦ at_time s data_center machine t later ]
