-- ===== src/Atm/System/Sessions.antt =====
-- Cards and PINs, over all schedules of the machines.
use cxx.Common.{ℕ, ◌+◌, ◌≡◌, refl, some, List, [], ◌∷◌, arith, total, total-append, ◌≤◌}
use cxx.Messaging.{Outcome}
use cxx.Atm.Message.{QueueId, atm_queue, interface_queue, Message, close_queue}
use cxx.Atm.Bank
use cxx.Atm.Bank.{Bank}
use cxx.Atm.Teller
use cxx.Atm.Teller.{
  Teller, State, wait_for_card, getting_pin, verifying_pin, wait_for_action, processing_withdrawal,
  process_balance, done_processing, Mode, Result,
}
use cxx.Atm.Weights.{by, issues, admissions, right_pins, cards_taken, cards_given, posted-le}
use cxx.Atm.System.Flow.{bank_out}
use cxx.Atm.System.Pin.{admissions-le-right_pins}
use cxx.Atm.System.Keeps.{run_keeps}
use cxx.Atm.System.Sending.{posted, send_all_lem}
use cxx.Atm.System.Defs.{
  System, push_to, after_teller, teller_wait, teller_step, after_bank, bank_wait, interface_step,
  Key, key_message, Move, teller_runs, bank_runs, interface_runs, press, done, live_step, start,
  run,
}

-- 1 while a card is in the machine.
abbrev pub inside : State → ℕ
inside wait_for_card = 0
inside _ = 1

-- 1 while the session may still get money.
abbrev credit : State → ℕ
credit wait_for_action = 1
credit processing_withdrawal = 1
credit process_balance = 1
credit _ = 0

-- What a step of the teller from `a` keeps.
record Fair (a : Teller) (r : Result) : Type 0 where
  interface : r.0.interface ≡ some interface_queue
  cards :
      total (by cards_taken) (posted r.1) + inside a.state
      ≡ total (by cards_given) (posted r.1) + inside r.0.state
  money :
      total (by issues) (posted r.1) + credit r.0.state
      ≤ total (by admissions) (posted r.1) + credit a.state

receive-Fair :
    (a : Teller) (m : Message) → a.interface ≡ some interface_queue → Fair a (Teller.receive a m)
unfolding Teller.receive
receive-Fair a m h = ground arith

enter-Fair : (a : Teller) → a.interface ≡ some interface_queue → Fair a (Teller.enter a)
unfolding Teller.enter
enter-Fair a h = ground arith

bank_out-taken : (b : Bank) (m : Message) → total (by cards_taken) (bank_out (Bank.receive b m)) ≡ 0
unfolding Bank.receive
bank_out-taken b m = ground arith

bank_out-given : (b : Bank) (m : Message) → total (by cards_given) (bank_out (Bank.receive b m)) ≡ 0
unfolding Bank.receive
bank_out-given b m = ground arith

bank_out-issues : (b : Bank) (m : Message) → total (by issues) (bank_out (Bank.receive b m)) ≡ 0
unfolding Bank.receive
bank_out-issues b m = ground arith

abbrev IsOther : Message → Type 0
IsOther m = (cards_taken m ≡ 0) × (cards_given m ≡ 0) × (issues m ≡ 0)

key-IsOther : (k : Key) → IsOther (key_message k)
key-IsOther k = ground arith

record Inv (s : System) : Type 0 where
  interface : s.teller.interface ≡ some interface_queue
  cards : total (by cards_taken) s.sent ≡ total (by cards_given) s.sent + inside s.teller.state
  money : total (by issues) s.sent + credit s.teller.state ≤ total (by admissions) s.sent

after_teller-Inv :
    (s : System) (a : Teller) (r : Result)
    → a.state ≡ s.teller.state
    → Fair a r
    → Inv s
    → Inv (after_teller s r)
after_teller-Inv s a (a', out) e f h = rw (send_all_lem out (record s { teller = a' })) (
    ground (
      arith,
      total-append (by cards_taken) s.sent (posted out),
      total-append (by cards_given) s.sent (posted out),
      total-append (by issues) s.sent (posted out),
      total-append (by admissions) s.sent (posted out),
    ))

teller_wait-Inv : (s : System) (ms : List Message) → Inv s → Inv (teller_wait s ms)
teller_wait-Inv s [] h = h
teller_wait-Inv s (m ∷ q) h =
    let a = record s.teller { incoming = q } in
    after_teller-Inv s a (Teller.receive a m) refl (receive-Fair a m h.interface) h

teller_step-Inv : (s : System) → Inv s → Inv (teller_step s)
unfolding teller_step
teller_step-Inv s h = by_mode s.teller.mode refl
  where
    by_mode : (k : Mode) → s.teller.mode ≡ k → Inv (teller_step s)
    by_mode Mode.calling e =
        rw (e, teller_step)
          (after_teller-Inv s s.teller (Teller.enter s.teller) refl
            (enter-Fair s.teller h.interface) h)
    by_mode Mode.waiting e = rw (e, teller_step) (teller_wait-Inv s s.teller.incoming h)
    by_mode Mode.ended e = rw (e, teller_step) h

after_bank-Inv :
    (s : System) (b : Bank) (r : Outcome Bank.Result)
    → total (by cards_taken) (bank_out r) ≡ 0
    → total (by cards_given) (bank_out r) ≡ 0
    → total (by issues) (bank_out r) ≡ 0
    → Inv s
    → Inv (after_bank s b r)
after_bank-Inv s b (Outcome.handled (b', out)) t g i h =
    rw (send_all_lem out (record s { bank = b' })) (
      ground (
        arith,
        total-append (by cards_taken) s.sent (posted out),
        total-append (by cards_given) s.sent (posted out),
        total-append (by issues) s.sent (posted out),
        total-append (by admissions) s.sent (posted out),
        posted-le cards_taken out,
        posted-le cards_given out,
        posted-le issues out,
      ))
after_bank-Inv s b Outcome.skipped t g i h = ground arith
after_bank-Inv s b Outcome.thrown t g i h = ground arith

bank_wait-Inv : (s : System) (ms : List Message) → Inv s → Inv (bank_wait s ms)
bank_wait-Inv s [] h = h
bank_wait-Inv s (m ∷ q) h =
    let b = record s.bank { incoming = q } in
    after_bank-Inv s b (Bank.receive b m) (bank_out-taken b m) (bank_out-given b m)
      (bank_out-issues b m) h

push_to-Inv : (q : QueueId) (m : Message) (s : System) → IsOther m → Inv s → Inv (push_to q m s)
push_to-Inv atm_queue m s e h = ground (
  arith,
  total-append (by cards_taken) s.sent ((atm_queue, m) ∷ []),
  total-append (by cards_given) s.sent ((atm_queue, m) ∷ []),
  total-append (by issues) s.sent ((atm_queue, m) ∷ []),
  total-append (by admissions) s.sent ((atm_queue, m) ∷ []),
)
push_to-Inv q m s e h = ground (
  arith,
  total-append (by cards_taken) s.sent ((q, m) ∷ []),
  total-append (by cards_given) s.sent ((q, m) ∷ []),
  total-append (by issues) s.sent ((q, m) ∷ []),
  total-append (by admissions) s.sent ((q, m) ∷ []),
)

interface_step-Inv : (s : System) → Inv s → Inv (interface_step s)
unfolding interface_step
interface_step-Inv s h = ground arith

live_step-Inv : (s : System) (m : Move) → Inv s → Inv (live_step s m)
unfolding live_step
live_step-Inv s teller_runs h = teller_step-Inv s h
live_step-Inv s bank_runs h = bank_wait-Inv s s.bank.incoming h
live_step-Inv s interface_runs h = interface_step-Inv s h
live_step-Inv s (press k) h = push_to-Inv atm_queue (key_message k) s (key-IsOther k) h
live_step-Inv s (done q) h = push_to-Inv q close_queue s (ground arith) h

-- Whatever the user does and however the threads are scheduled, the cards that the teller has
-- taken are the cards that it has given back, and one more exactly when it is in a session.
pub cards_conserved :
    (garbage : ℕ) (ms : List Move)
    → let s = run (start garbage) ms in
      total (by cards_taken) s.sent ≡ total (by cards_given) s.sent + inside s.teller.state
unfolding start Teller.new
cards_conserved garbage ms = (run_keeps Inv live_step-Inv (start garbage) ms (ground arith)).cards

-- Whatever the user does and however the threads are scheduled, the teller issues money at most
-- once for each time that it asks the bank to check the PIN "0000".
pub issues-le-right_pins :
    (garbage : ℕ) (ms : List Move)
    → let s = run (start garbage) ms in total (by issues) s.sent ≤ total (by right_pins) s.sent
unfolding start Teller.new
issues-le-right_pins garbage ms = omega (
  arith,
  (run_keeps Inv live_step-Inv (start garbage) ms (ground arith)).money,
  admissions-le-right_pins garbage ms,
)
