-- ===== src/Atm/System/Pin.antt =====
-- PIN checks, over all schedules of the machines.
use cxx.Common.{ℕ, ◌≤◌, ◌≡◌, List, arith, total}
use cxx.Atm.Message.{Message}
use cxx.Atm.Bank
use cxx.Atm.Bank.{Bank}
use cxx.Atm.Teller
use cxx.Atm.Teller.{Teller}
use cxx.Atm.Weights.{by, right_pins, verdicts, admissions}
use cxx.Atm.System.Flow
use cxx.Atm.System.Flow.{TellerFlow, bank_out}
use cxx.Atm.System.BankFlow
use cxx.Atm.System.BankFlow.{BankFlow}
use cxx.Atm.System.Defs.{Key, key_message, Move, start, run}

admission-receive :
    (a : Teller) (m : Message) → total (by admissions) (Teller.receive a m).1 ≤ verdicts m
unfolding Teller.receive
admission-receive a m = ground arith

verdict-receive : (a : Teller) (m : Message) → total (by verdicts) (Teller.receive a m).1 ≡ 0
unfolding Teller.receive
verdict-receive a m = ground arith

admission-enter : (a : Teller) → total (by admissions) (Teller.enter a).1 ≡ 0
unfolding Teller.enter
admission-enter a = ground arith

verdict-enter : (a : Teller) → total (by verdicts) (Teller.enter a).1 ≡ 0
unfolding Teller.enter
verdict-enter a = ground arith

admission-bank : (b : Bank) (m : Message) → total (by admissions) (bank_out (Bank.receive b m)) ≡ 0
unfolding Bank.receive
admission-bank b m = ground arith

admission-key : (k : Key) → admissions (key_message k) ≡ 0
admission-key k = ground arith

verdict-key : (k : Key) → verdicts (key_message k) ≡ 0
verdict-key k = ground arith

verdict-bank :
    (b : Bank) (m : Message) → total (by verdicts) (bank_out (Bank.receive b m)) ≤ right_pins m
unfolding Bank.receive
verdict-bank b m = ground arith

right_pin-bank : (b : Bank) (m : Message) → total (by right_pins) (bank_out (Bank.receive b m)) ≡ 0
unfolding Bank.receive
right_pin-bank b m = ground arith

admitted : TellerFlow admissions verdicts
admitted = record {
  receive_le = admission-receive;
  receive_no_cause = verdict-receive;
  enter_none = admission-enter;
  enter_no_cause = verdict-enter;
  bank_none = admission-bank;
  key_none = admission-key;
  close_none = omega arith;
}

judged : BankFlow verdicts right_pins
judged = record {
  receive_le = verdict-bank;
  receive_no_cause = right_pin-bank;
  teller_none = verdict-receive;
  enter_none = verdict-enter;
  key_none = verdict-key;
  close_none = omega arith;
}

-- Whatever the user does and however the threads are scheduled, the teller has announced "PIN
-- verified" at most as often as it has asked the bank to check the PIN "0000".
pub admissions-le-right_pins :
    (garbage : ℕ) (ms : List Move)
    → let s = run (start garbage) ms in total (by admissions) s.sent ≤ total (by right_pins) s.sent
unfolding start
admissions-le-right_pins garbage ms = omega (
  arith,
  Flow.run-Covered admitted (start garbage) ms (omega arith),
  BankFlow.run-Covered judged (start garbage) ms (omega arith),
)
