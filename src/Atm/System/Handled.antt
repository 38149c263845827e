-- ===== src/Atm/System/Handled.antt =====
-- Whether the machines have handlers for what they send each other.
use cxx.Common.{ℕ, ◌≡◌, refl, ap, ◌∙◌, some, List, [], ◌∷◌, arith, total, total-append}
use cxx.Messaging.{Outcome}
use cxx.Atm.Message.{QueueId, atm_queue, bank_queue, interface_queue, Sender, Message, close_queue}
use cxx.Atm.Bank
use cxx.Atm.Bank.{Bank}
use cxx.Atm.Interface
use cxx.Atm.Teller
use cxx.Atm.Teller.{State, Teller, Mode}
use cxx.Atm.System.Sending.{posted, to_bank, send_all_lem}
use cxx.Atm.System.Strays.{
  AllHandled, stray_at_bank, stray, stray_send, posted_lem, to_bank_lem, Wired, receive-strays,
  receive-Wired, enter-strays, enter-Wired, bank-strays, key-strays, sent-Handled,
}
use cxx.Atm.System.Flow.{bank_out}
use cxx.Atm.System.BankFlow.{KeepsQueue, receive-incoming}
use cxx.Atm.System.Keeps.{run_keeps}
use cxx.Atm.System.Defs.{
  System, push_to, send_all, after_interface, interface_wait, teller_wait, teller_step, after_bank,
  bank_wait, interface_step, key_message, Move, teller_runs, bank_runs, interface_runs, press, done,
  live_step, run, start,
}

-- Nothing stray has been sent, and nothing stray waits at the bank.
record Routed (s : System) : Type 0 where
  pub wired : Wired s.teller
  pub sent : total stray s.sent ≡ 0
  pub at_bank : total stray_at_bank s.bank.incoming ≡ 0

sends-Routed :
    (out : List (Sender × Message)) (s : System)
    → total stray_send out ≡ 0
    → Routed s
    → Routed (send_all out s)
sends-Routed out s e h = rw (send_all_lem out s) (record {
  wired = h.wired;
  sent = omega (arith, e, h.sent, posted_lem out, total-append stray s.sent (posted out));
  at_bank = omega (
    arith,
    e,
    h.at_bank,
    to_bank_lem out,
    total-append stray_at_bank s.bank.incoming (to_bank out),
  );
})

teller_wait-Routed : (s : System) (ms : List Message) → Routed s → Routed (teller_wait s ms)
teller_wait-Routed s [] h = h
teller_wait-Routed s (m ∷ q) h =
    let a = record s.teller { incoming = q } in
    sends-Routed (Teller.receive a m).1 (record s { teller = (Teller.receive a m).0 })
      (receive-strays a m h.wired)
      (record { wired = receive-Wired a m h.wired; sent = h.sent; at_bank = h.at_bank })

teller_step-Routed : (s : System) → Routed s → Routed (teller_step s)
unfolding teller_step
teller_step-Routed s h = by_mode s.teller.mode refl
  where
    by_mode : (k : Mode) → s.teller.mode ≡ k → Routed (teller_step s)
    by_mode Mode.calling e =
        rw (e, teller_step)
          (sends-Routed (Teller.enter s.teller).1 (record s { teller = (Teller.enter s.teller).0 })
            (enter-strays s.teller h.wired)
            (record { wired = enter-Wired s.teller h.wired; sent = h.sent; at_bank = h.at_bank }))
    by_mode Mode.waiting e = rw (e, teller_step) (teller_wait-Routed s s.teller.incoming h)
    by_mode Mode.ended e = rw (e, teller_step) h

after_bank-Routed :
    (s : System) (b : Bank) (r : Outcome Bank.Result)
    → total stray_send (bank_out r) ≡ 0
    → total stray_at_bank b.incoming ≡ 0
    → KeepsQueue r b.incoming
    → Routed s
    → Routed (after_bank s b r)
after_bank-Routed s b (Outcome.handled (b', out)) e k q h =
    sends-Routed out (record s { bank = b' }) e
      (record { wired = h.wired; sent = h.sent; at_bank = ap (total stray_at_bank) q ∙ k })
after_bank-Routed s b Outcome.skipped e k q h = record {
  wired = h.wired;
  sent = h.sent;
  at_bank = k;
}
after_bank-Routed s b Outcome.thrown e k q h = record {
  wired = h.wired;
  sent = h.sent;
  at_bank = k;
}

bank_wait-Routed :
    (s : System) (ms : List Message)
    → total stray_at_bank ms ≡ 0
    → Routed s
    → Routed (bank_wait s ms)
bank_wait-Routed s [] k h = h
bank_wait-Routed s (m ∷ q) k h =
    let b = record s.bank { incoming = q } in
    after_bank-Routed s b (Bank.receive b m) (bank-strays b m (omega (arith, k))) (omega (arith, k))
      (receive-incoming b m) h

interface_step-Routed : (s : System) → Routed s → Routed (interface_step s)
unfolding interface_step
interface_step-Routed s h = by_queue s.interface
  where
    after : (q : List Message) (o : Outcome (List Interface.Line)) → Routed (after_interface s q o)
    after q (Outcome.handled lines) = record { wired = h.wired; sent = h.sent; at_bank = h.at_bank }
    after q Outcome.skipped = record { wired = h.wired; sent = h.sent; at_bank = h.at_bank }
    after q Outcome.thrown = record { wired = h.wired; sent = h.sent; at_bank = h.at_bank }

    by_queue : (ms : List Message) → Routed (interface_wait s ms)
    by_queue [] = h
    by_queue (m ∷ q) = after q (Interface.receive m)

push-Routed :
    (q : QueueId) (m : Message) (s : System) → stray (q, m) ≡ 0 → Routed s → Routed (push_to q m s)
unfolding send_all
push-Routed q m s e h = (sends-Routed ((some q, m) ∷ []) s (omega (arith, e)) h)

live_step-Routed : (s : System) (m : Move) → Routed s → Routed (live_step s m)
unfolding live_step
live_step-Routed s teller_runs h = teller_step-Routed s h
live_step-Routed s bank_runs h = bank_wait-Routed s s.bank.incoming h.at_bank h
live_step-Routed s interface_runs h = interface_step-Routed s h
live_step-Routed s (press k) h = push-Routed atm_queue (key_message k) s (key-strays k) h
live_step-Routed s (done atm_queue) h = push-Routed atm_queue close_queue s refl h
live_step-Routed s (done bank_queue) h = push-Routed bank_queue close_queue s refl h
live_step-Routed s (done interface_queue) h = push-Routed interface_queue close_queue s refl h

start-Routed : (garbage : ℕ) → Routed (start garbage)
unfolding start Teller.new Bank.new
start-Routed garbage = record { wired = (refl, refl); sent = refl; at_bank = refl }

-- Whatever the schedule and the keys: of all messages that have been sent, the bank and the
-- interface throw none away, whenever they take it, and each one to the teller is handled in one of
-- its states. A CloseQueue counts as handled, since it ends the wait.
pub run-Handled : (garbage : ℕ) (ms : List Move) → AllHandled (run (start garbage) ms).sent
run-Handled garbage ms =
    sent-Handled (run (start garbage) ms).sent
      (run_keeps Routed live_step-Routed (start garbage) ms (start-Routed garbage)).sent
