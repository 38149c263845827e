-- ===== src/Atm/Teller/Valid.antt =====
-- The PIN buffer of the teller, and the order in which its state functions follow one another.
use cxx.Common.{ℕ, ◌≤◌, ◌<◌, ◌≡◌, [], ◌∷◌, arith, length, length-append, ◌≢◌}
use cxx.Atm.Message.{Text, Message, digit_pressed}
use cxx.Atm.Teller.{
  Teller, State, wait_for_card, getting_pin, verifying_pin, wait_for_action, processing_withdrawal,
  process_balance, done_processing, pop_back, enter, receive,
}

-- The digits that the state functions rely on.
abbrev pub PinFits : State → ℕ → Type 0
PinFits wait_for_card n = n ≤ 4
PinFits getting_pin n = n < 4
PinFits done_processing n = n ≤ 4
PinFits _ n = n ≡ 4

abbrev pub IsValid : Teller → Type 0
IsValid a = PinFits a.state (length a.pin)

length-pop_back : (s : Text) → length (pop_back s) ≤ length s
length-pop_back [] = omega arith
length-pop_back (a ∷ []) = omega arith
length-pop_back (a ∷ b ∷ s) = omega (arith, length-pop_back (b ∷ s))

-- A message keeps the number of digits in the PIN buffer that the state functions rely on: below
-- four while the PIN is typed, four when it is checked and while an action is chosen or made, and
-- at most four otherwise.
pub receive-IsValid : (a : Teller) (m : Message) → IsValid a → IsValid (receive a m).0
unfolding receive
receive-IsValid a (digit_pressed d) h =
    ground (arith, length-append a.pin (d ∷ []), length-pop_back a.pin)
receive-IsValid a m h = ground (arith, length-pop_back a.pin)

pub enter-IsValid : (a : Teller) → IsValid a → IsValid (enter a).0
unfolding enter
enter-IsValid a h = ground arith

-- The diagram of the state functions.
pub data Edge : State → State → Type 0 where
  insert : Edge wait_for_card getting_pin
  type_last : Edge getting_pin verifying_pin
  verify : Edge verifying_pin wait_for_action
  retry : Edge verifying_pin getting_pin
  take_cash : Edge wait_for_action processing_withdrawal
  ask : Edge wait_for_action process_balance
  answer : Edge process_balance wait_for_action
  finish : {s : State} → s ≢ wait_for_card → Edge s done_processing
  eject : Edge done_processing wait_for_card
  stay : {s : State} → Edge s s

ruleset edges = (insert, type_last, verify, retry, take_cash, ask, answer, eject, stay)

-- A message moves the teller along an edge of the diagram of its state functions, or leaves its
-- state.
pub receive-Edge : (a : Teller) (m : Message) → Edge a.state (receive a m).0.state
unfolding receive
receive-Edge a m = grind (arith, edges, finish)
