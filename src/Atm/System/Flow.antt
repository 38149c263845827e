-- ===== src/Atm/System/Flow.antt =====
-- Counting messages over all schedules: an effect that a machine sends only on taking a cause.
use cxx.Common.{ℕ, ◌+◌, ◌≤◌, ◌≡◌, refl, List, [], ◌∷◌, arith, total, total-append}
use cxx.Messaging.{Outcome}
use cxx.Atm.Message.{QueueId, atm_queue, Sender, Message, close_queue}
use cxx.Atm.Bank
use cxx.Atm.Bank.{Bank}
use cxx.Atm.Teller
use cxx.Atm.Teller.{Teller, Mode}
use cxx.Atm.Weights.{by, posted-le, to_teller-le}
use cxx.Atm.System.Sending.{posted, to_teller, send_all_lem}
use cxx.Atm.System.Keeps.{run_keeps}
use cxx.Atm.System.Defs.{
  System, push_to, after_teller, teller_wait, teller_step, after_bank, bank_wait, interface_step,
  Key, key_message, Move, teller_runs, bank_runs, interface_runs, press, done, live_step, run,
}

-- The sends of a bank that takes a message.
abbrev pub bank_out : Outcome Bank.Result → List (Sender × Message)
bank_out (Outcome.handled (b, out)) = out
bank_out _ = []

-- The teller sends an effect only on taking a cause, one for one; nobody else sends effects.
pub record TellerFlow (effect cause : Message → ℕ) : Type 0 where
  pub receive_le : (a : Teller) (m : Message) → total (by effect) (Teller.receive a m).1 ≤ cause m
  pub receive_no_cause : (a : Teller) (m : Message) → total (by cause) (Teller.receive a m).1 ≡ 0
  pub enter_none : (a : Teller) → total (by effect) (Teller.enter a).1 ≡ 0
  pub enter_no_cause : (a : Teller) → total (by cause) (Teller.enter a).1 ≡ 0
  pub bank_none : (b : Bank) (m : Message) → total (by effect) (bank_out (Bank.receive b m)) ≡ 0
  pub key_none : (k : Key) → effect (key_message k) ≡ 0
  pub close_none : effect close_queue ≡ 0

receive-incoming : (a : Teller) (m : Message) → (Teller.receive a m).0.incoming ≡ a.incoming
unfolding Teller.receive
receive-incoming a m = ground arith

enter-incoming : (a : Teller) → (Teller.enter a).0.incoming ≡ a.incoming
unfolding Teller.enter
enter-incoming a = ground arith

module _ {effect cause : Message → ℕ} (f : TellerFlow effect cause) where
  abbrev Covered : System → Type 0
  Covered s = total (by effect) s.sent + total cause s.teller.incoming ≤ total (by cause) s.sent

  -- The teller's own state is free: only its queue counts.
  after_teller-Covered :
      (s : System) (a : Teller) (out : List (Sender × Message)) (k : ℕ)
      → total (by effect) out ≤ k
      → total (by cause) out ≡ 0
      → total (by effect) s.sent + total cause a.incoming + k ≤ total (by cause) s.sent
      → Covered (after_teller s (a, out))
  after_teller-Covered s a out k e c h = rw (send_all_lem out (record s { teller = a })) (
      omega (
        arith,
        total-append (by effect) s.sent (posted out),
        total-append (by cause) s.sent (posted out),
        total-append cause a.incoming (to_teller out),
        posted-le effect out,
        to_teller-le cause out,
        posted-le cause out,
      ))

  teller_wait-Covered :
      (s : System) (ms : List Message)
      → total (by effect) s.sent + total cause ms ≤ total (by cause) s.sent
      → Covered s
      → Covered (teller_wait s ms)
  teller_wait-Covered s [] e h = h
  teller_wait-Covered s (m ∷ q) e h =
      let a = record s.teller { incoming = q } in
      after_teller-Covered s (Teller.receive a m).0 (Teller.receive a m).1 (cause m)
        (f.receive_le a m) (f.receive_no_cause a m) (rw (receive-incoming a m) (omega arith))

  teller_step-Covered : (s : System) → Covered s → Covered (teller_step s)
  unfolding teller_step
  teller_step-Covered s h = by_mode s.teller.mode refl
    where
      by_mode : (k : Mode) → s.teller.mode ≡ k → Covered (teller_step s)
      by_mode Mode.calling e =
          rw (e, teller_step)
            (after_teller-Covered s (Teller.enter s.teller).0 (Teller.enter s.teller).1 0
              (omega (arith, f.enter_none s.teller)) (f.enter_no_cause s.teller)
              (rw (enter-incoming s.teller) (omega arith)))
      by_mode Mode.waiting e = rw (e, teller_step) (teller_wait-Covered s s.teller.incoming h h)
      by_mode Mode.ended e = rw (e, teller_step) h

  after_bank-Covered :
      (s : System) (b : Bank) (r : Outcome Bank.Result)
      → total (by effect) (bank_out r) ≡ 0
      → Covered s
      → Covered (after_bank s b r)
  after_bank-Covered s b (Outcome.handled (b', out)) e h =
      rw (send_all_lem out (record s { bank = b' })) (
        omega (
          arith,
          total-append (by effect) s.sent (posted out),
          total-append (by cause) s.sent (posted out),
          total-append cause s.teller.incoming (to_teller out),
          posted-le effect out,
          to_teller-le cause out,
        ))
  after_bank-Covered s b Outcome.skipped e h = h
  after_bank-Covered s b Outcome.thrown e h = h

  bank_wait-Covered : (s : System) (ms : List Message) → Covered s → Covered (bank_wait s ms)
  bank_wait-Covered s [] h = h
  bank_wait-Covered s (m ∷ q) h =
      let b = record s.bank { incoming = q } in
      after_bank-Covered s b (Bank.receive b m) (f.bank_none b m) h

  push_to-Covered :
      (q : QueueId) (m : Message) (s : System) → effect m ≡ 0 → Covered s → Covered (push_to q m s)
  push_to-Covered atm_queue m s e h = omega (
    arith,
    total-append (by effect) s.sent ((atm_queue, m) ∷ []),
    total-append (by cause) s.sent ((atm_queue, m) ∷ []),
    total-append cause s.teller.incoming (m ∷ []),
  )
  push_to-Covered q m s e h = omega (
    arith,
    total-append (by effect) s.sent ((q, m) ∷ []),
    total-append (by cause) s.sent ((q, m) ∷ []),
  )

  interface_step-Covered : (s : System) → Covered s → Covered (interface_step s)
  unfolding interface_step
  interface_step-Covered s h = ground arith

  live_step-Covered : (s : System) (m : Move) → Covered s → Covered (live_step s m)
  unfolding live_step
  live_step-Covered s teller_runs h = teller_step-Covered s h
  live_step-Covered s bank_runs h = bank_wait-Covered s s.bank.incoming h
  live_step-Covered s interface_runs h = interface_step-Covered s h
  live_step-Covered s (press k) h = push_to-Covered atm_queue (key_message k) s (f.key_none k) h
  live_step-Covered s (done q) h = push_to-Covered q close_queue s f.close_none h

  pub run-Covered : (s : System) (ms : List Move) → Covered s → Covered (run s ms)
  run-Covered s ms h = run_keeps Covered live_step-Covered s ms h
