-- ===== src/Atm/System/Defs.antt =====
-- The state of the process and its steps.
use cxx.Common.{ℕ, Bool, true, false, none, some, List, [], ◌∷◌, ◌++◌, if◌then◌else◌}
use cxx.Messaging.{push, Outcome}
use cxx.Atm.Message.{
  Text, QueueId, atm_queue, bank_queue, interface_queue, Sender, Message, card_inserted,
  digit_pressed, clear_last_pressed, withdraw_pressed, cancel_pressed, balance_pressed, close_queue,
}
use cxx.Atm.Bank
use cxx.Atm.Bank.{Bank}
use cxx.Atm.Interface
use cxx.Atm.Interface.{Line}
use cxx.Atm.Teller
use cxx.Atm.Teller.{Teller, Mode}

-- `printed` is what the interface machine wrote, and `sent` lists all messages ever sent, with the
-- queue that each went to, oldest first. No code reads `sent`: it is there for statements.
pub record System : Type 0 where
  pub teller : Teller
  pub bank : Bank
  pub interface : List Message
  pub printed : List Line
  pub aborted : Bool
  pub sent : List (QueueId × Message)

-- Queue::push on the queue with this name.
abbrev pub push_to : QueueId → Message → System → System
push_to atm_queue m s = record s {
  teller = record s.teller { incoming = push s.teller.incoming m };
  sent = s.sent ++ (atm_queue, m) ∷ [];
}
push_to bank_queue m s = record s {
  bank = record s.bank { incoming = push s.bank.incoming m };
  sent = s.sent ++ (bank_queue, m) ∷ [];
}
push_to interface_queue m s = record s {
  interface = push s.interface m;
  sent = s.sent ++ (interface_queue, m) ∷ [];
}

-- Sender::send: nothing happens at a null queue.
abbrev pub send : Sender → Message → System → System
send none m s = s
send (some q) m s = push_to q m s

unfoldable pub send_all : List (Sender × Message) → System → System
send_all [] s = s
send_all ((q, m) ∷ out) s = send_all out (send q m s)

abbrev pub after_teller : System → Teller.Result → System
after_teller s (a, out) = send_all out (record s { teller = a })

abbrev pub teller_wait : System → List Message → System
teller_wait s [] = s
teller_wait s (m ∷ q) = after_teller s (Teller.receive (record s.teller { incoming = q }) m)

-- The next step of the thread of ATM::run.
unfoldable pub teller_step : System → System
teller_step s = elim s.teller.mode [
  | Mode.calling ↦ after_teller s (Teller.enter s.teller)
  | Mode.waiting ↦ teller_wait s s.teller.incoming
  | Mode.ended ↦ s
]

abbrev pub after_bank : System → Bank → Outcome Bank.Result → System
after_bank s b (Outcome.handled (b', out)) = send_all out (record s { bank = b' })
after_bank s b Outcome.skipped = record s { bank = b }
after_bank s b Outcome.thrown = record s { bank = b; aborted = true }

abbrev pub bank_wait : System → List Message → System
bank_wait s [] = s
bank_wait s (m ∷ q) = let b = record s.bank { incoming = q } in after_bank s b (Bank.receive b m)

-- The next step of the thread of BankMachine::run.
unfoldable pub bank_step : System → System
bank_step s = bank_wait s s.bank.incoming

abbrev pub after_interface : System → List Message → Outcome (List Line) → System
after_interface s q (Outcome.handled lines) = record s {
  interface = q;
  printed = s.printed ++ lines;
}
after_interface s q Outcome.skipped = record s { interface = q }
after_interface s q Outcome.thrown = record s { interface = q; aborted = true }

abbrev pub interface_wait : System → List Message → System
interface_wait s [] = s
interface_wait s (m ∷ q) = after_interface s q (Interface.receive m)

-- The next step of the thread of InterfaceMachine::run.
unfoldable pub interface_step : System → System
interface_step s = interface_wait s s.interface

-- What the user's side sends to the teller.
pub data Key : Type 0 where
  card : Text → Key
  digit : ℕ → Key
  clear : Key
  cash : ℕ → Key
  balance : Key
  cancel : Key

abbrev pub key_message : Key → Message
key_message (card account) = card_inserted account
key_message (digit d) = digit_pressed d
key_message clear = clear_last_pressed
key_message (cash amount) = withdraw_pressed amount
key_message balance = balance_pressed
key_message cancel = cancel_pressed

-- `done q` is the member function `done()` of the machine with that queue.
pub data Move : Type 0 where
  teller_runs bank_runs interface_runs : Move
  press : Key → Move
  done : QueueId → Move

unfoldable pub live_step : System → Move → System
unfolding teller_step bank_step interface_step
live_step s teller_runs = teller_step s
live_step s bank_runs = bank_step s
live_step s interface_runs = interface_step s
live_step s (press k) = push_to atm_queue (key_message k) s
live_step s (done q) = push_to q close_queue s

-- Nothing runs in a process that has ended.
unfoldable pub step : System → Move → System
unfolding live_step
step s m = if s.aborted then s else live_step s m

unfoldable pub run : System → List Move → System
run s [] = s
run s (m ∷ ms) = run (step s m) ms

-- The state before the threads start; `garbage` is the uninitialised `withdrawal_amount_`.
unfoldable pub start : ℕ → System
unfolding Teller.new Bank.new
start garbage = record {
  teller = Teller.new (some bank_queue) (some interface_queue) garbage;
  bank = Bank.new;
  interface = [];
  printed = [];
  aborted = false;
  sent = [];
}
