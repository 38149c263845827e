-- ===== src/Atm/Tests.antt =====
-- The machines at concrete messages and schedules.
use cxx.Common.{true, ◌+◌, ◌≤◌, ◌≡◌, arith, some, List, [], ◌∷◌, total}
use cxx.Atm.Message.{
  Message, atm_queue, bank_queue, interface_queue, digit_pressed, withdraw, cancel_withdrawal,
}
use cxx.Atm.Bank
use cxx.Atm.Bank.Ledger.{serve, serve-Balanced, Balanced, open_account}
use cxx.Atm.Teller
use cxx.Atm.Teller.{Teller, getting_pin, wait_for_action, Mode}
use cxx.Atm.Teller.Valid.{IsValid, Edge, receive-IsValid, receive-Edge}
use cxx.Atm.Weights.{by, issues, approvals, right_pins, admissions, cards_taken, cards_given}
use cxx.Atm.System.{System, Move, start, run}
use cxx.Atm.System.Shutdown.{shutdown_lem}
use cxx.Atm.System.Money.{issues-le-approvals}
use cxx.Atm.System.Pin.{admissions-le-right_pins}
use cxx.Atm.System.Sessions.{inside, cards_conserved, issues-le-right_pins}
use cxx.Atm.System.Heist.{Unpaid, heist, heist_lem}
use cxx.Atm.System.Strays.{AllHandled}
use cxx.Atm.System.Handled.{run-Handled}
use cxx.Atm.System.Races.{raid}

abbrev schedule : List Move
schedule = raid (65 ∷ []) 50

-- Three of the four digits
abbrev typing : Teller
typing = record {
  incoming = [];
  bank = some bank_queue;
  interface = some interface_queue;
  withdrawal_amount = 0;
  account = 65 ∷ [];
  pin = 1 ∷ 2 ∷ 3 ∷ [];
  state = getting_pin;
  mode = Mode.waiting;
}

opened : Balanced 199 (open_account Bank.new)
unfolding Bank.new
opened = record { funds = omega arith; fits = omega arith }

abbrev requests : List Message
requests =
    withdraw (65 ∷ []) 50 (some atm_queue)
    ∷ withdraw (65 ∷ []) 500 (some atm_queue)
    ∷ cancel_withdrawal (65 ∷ []) 50
    ∷ []

serve-Balanced_example : Balanced 199 (serve (open_account Bank.new) requests)
serve-Balanced_example = serve-Balanced 199 (open_account Bank.new) requests opened

receive-IsValid_example : IsValid (Teller.receive typing (digit_pressed 4)).0
receive-IsValid_example = receive-IsValid typing (digit_pressed 4) (omega arith)

receive-Edge_example : Edge getting_pin (Teller.receive typing (digit_pressed 4)).0.state
receive-Edge_example = receive-Edge typing (digit_pressed 4)

issues-le-approvals_example :
    total (by issues) (run (start 0) schedule).sent
      + total approvals (run (start 0) schedule).teller.incoming
    ≤ total (by approvals) (run (start 0) schedule).sent
issues-le-approvals_example = issues-le-approvals 0 schedule

admissions-le-right_pins_example :
    total (by admissions) (run (start 0) schedule).sent
    ≤ total (by right_pins) (run (start 0) schedule).sent
admissions-le-right_pins_example = admissions-le-right_pins 0 schedule

cards_conserved_example :
    total (by cards_taken) (run (start 0) schedule).sent
    ≡ total (by cards_given) (run (start 0) schedule).sent
      + inside (run (start 0) schedule).teller.state
cards_conserved_example = cards_conserved 0 schedule

issues-le-right_pins_example :
    total (by issues) (run (start 0) schedule).sent
    ≤ total (by right_pins) (run (start 0) schedule).sent
issues-le-right_pins_example = issues-le-right_pins 0 schedule

-- The bank has the requests to answer before it finds the CloseQueue.
abbrev busy : System
busy = record (start 0) { bank = record { incoming = requests; funds = 199 } }

abbrev closing : List Move
closing =
    Move.bank_runs ∷ Move.teller_runs ∷ Move.bank_runs ∷ Move.bank_runs ∷ Move.bank_runs
    ∷ Move.bank_runs ∷ []

shutdown_lem_example : (run busy (Move.done bank_queue ∷ closing)).aborted ≡ true
shutdown_lem_example = shutdown_lem busy closing (omega arith)

heist_lem_example :
    Unpaid 1000000 (run (start 0) (heist (65 ∷ []) (66 ∷ []) (67 ∷ []) 1 2 3 4 1000000))
heist_lem_example = heist_lem 0 (65 ∷ []) (66 ∷ []) (67 ∷ []) 1 2 3 4 1000000 (omega arith)

run-Handled_example : AllHandled (run (start 0) (raid (65 ∷ []) 300)).sent
run-Handled_example = run-Handled 0 (raid (65 ∷ []) 300)
