-- ===== src/Atm/System/Money.antt =====
-- Issued money and the bank's approvals, over all schedules of the machines.
use cxx.Common.{ℕ, ◌+◌, ◌≤◌, ◌≡◌, List, arith, total}
use cxx.Atm.Message.{Message}
use cxx.Atm.Bank
use cxx.Atm.Bank.{Bank}
use cxx.Atm.Teller
use cxx.Atm.Teller.{Teller}
use cxx.Atm.Weights.{by, issues, approvals}
use cxx.Atm.System.Flow.{TellerFlow, bank_out, run-Covered}
use cxx.Atm.System.Defs.{Key, key_message, Move, start, run}

issue-receive : (a : Teller) (m : Message) → total (by issues) (Teller.receive a m).1 ≤ approvals m
unfolding Teller.receive
issue-receive a m = ground arith

approval-receive : (a : Teller) (m : Message) → total (by approvals) (Teller.receive a m).1 ≡ 0
unfolding Teller.receive
approval-receive a m = ground arith

issue-bank : (b : Bank) (m : Message) → total (by issues) (bank_out (Bank.receive b m)) ≡ 0
unfolding Bank.receive
issue-bank b m = ground arith

issue-key : (k : Key) → issues (key_message k) ≡ 0
issue-key k = ground arith

issue-enter : (a : Teller) → total (by issues) (Teller.enter a).1 ≡ 0
unfolding Teller.enter
issue-enter a = ground arith

approval-enter : (a : Teller) → total (by approvals) (Teller.enter a).1 ≡ 0
unfolding Teller.enter
approval-enter a = ground arith

money : TellerFlow issues approvals
money = record {
  receive_le = issue-receive;
  receive_no_cause = approval-receive;
  enter_none = issue-enter;
  enter_no_cause = approval-enter;
  bank_none = issue-bank;
  key_none = issue-key;
  close_none = omega arith;
}

-- Whatever the user does and however the threads are scheduled, the teller has sent no more
-- issue_money messages than the bank has sent withdraw_ok messages, those that the teller has yet
-- to take included.
pub issues-le-approvals :
    (garbage : ℕ) (ms : List Move)
    → let s = run (start garbage) ms in
      total (by issues) s.sent + total approvals s.teller.incoming ≤ total (by approvals) s.sent
unfolding start
issues-le-approvals garbage ms = run-Covered money (start garbage) ms (omega arith)
