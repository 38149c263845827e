-- ===== src/Atm/System/BankFlow.antt =====
-- Counting messages over all schedules: an effect that the bank sends only on taking a cause.
use cxx.Common.{ℕ, ◌+◌, ◌≤◌, ◌≡◌, refl, List, [], ◌∷◌, arith, total, total-append}
use cxx.Messaging.{Outcome}
use cxx.Atm.Message.{QueueId, atm_queue, bank_queue, Message, close_queue}
use cxx.Atm.Bank
use cxx.Atm.Bank.{Bank}
use cxx.Atm.Teller
use cxx.Atm.Teller.{Teller, Mode}
use cxx.Atm.Weights.{by, posted-le, to_bank-le}
use cxx.Atm.System.Flow.{bank_out}
use cxx.Atm.System.Keeps.{run_keeps}
use cxx.Atm.System.Sending.{posted, to_bank, send_all_lem}
use cxx.Atm.System.Defs.{
  System, push_to, after_teller, teller_wait, teller_step, after_bank, bank_wait, interface_step,
  Key, key_message, Move, teller_runs, bank_runs, interface_runs, press, done, live_step, run,
}

abbrev pub KeepsQueue : Outcome Bank.Result → List Message → Type 0
KeepsQueue (Outcome.handled (b, out)) q = b.incoming ≡ q
KeepsQueue _ q = Unit

-- A handler of the bank leaves its queue alone.
pub receive-incoming : (b : Bank) (m : Message) → KeepsQueue (Bank.receive b m) b.incoming
unfolding Bank.receive
receive-incoming b m = ground arith

-- The bank sends an effect only on taking a cause, one for one; nobody else sends effects.
pub record BankFlow (effect cause : Message → ℕ) : Type 0 where
  pub receive_le :
      (b : Bank) (m : Message) → total (by effect) (bank_out (Bank.receive b m)) ≤ cause m
  pub receive_no_cause :
      (b : Bank) (m : Message) → total (by cause) (bank_out (Bank.receive b m)) ≡ 0
  pub teller_none : (a : Teller) (m : Message) → total (by effect) (Teller.receive a m).1 ≡ 0
  pub enter_none : (a : Teller) → total (by effect) (Teller.enter a).1 ≡ 0
  pub key_none : (k : Key) → effect (key_message k) ≡ 0
  pub close_none : effect close_queue ≡ 0

module _ {effect cause : Message → ℕ} (f : BankFlow effect cause) where
  abbrev Covered : System → Type 0
  Covered s = total (by effect) s.sent + total cause s.bank.incoming ≤ total (by cause) s.sent

  after_teller-Covered :
      (s : System) (r : Teller.Result)
      → total (by effect) r.1 ≡ 0
      → Covered s
      → Covered (after_teller s r)
  after_teller-Covered s (a, out) e h = rw (send_all_lem out (record s { teller = a })) (
      omega (
        arith,
        total-append (by effect) s.sent (posted out),
        total-append (by cause) s.sent (posted out),
        total-append cause s.bank.incoming (to_bank out),
        posted-le effect out,
        to_bank-le cause out,
      ))

  teller_wait-Covered : (s : System) (ms : List Message) → Covered s → Covered (teller_wait s ms)
  teller_wait-Covered s [] h = h
  teller_wait-Covered s (m ∷ q) h =
      let a = record s.teller { incoming = q } in
      after_teller-Covered s (Teller.receive a m) (f.teller_none a m) h

  teller_step-Covered : (s : System) → Covered s → Covered (teller_step s)
  unfolding teller_step
  teller_step-Covered s h = by_mode s.teller.mode refl
    where
      by_mode : (k : Mode) → s.teller.mode ≡ k → Covered (teller_step s)
      by_mode Mode.calling e =
          rw (e, teller_step)
            (after_teller-Covered s (Teller.enter s.teller) (f.enter_none s.teller) h)
      by_mode Mode.waiting e = rw (e, teller_step) (teller_wait-Covered s s.teller.incoming h)
      by_mode Mode.ended e = rw (e, teller_step) h

  after_bank-Covered :
      (s : System) (b : Bank) (r : Outcome Bank.Result) (k : ℕ)
      → total (by effect) (bank_out r) ≤ k
      → total (by cause) (bank_out r) ≡ 0
      → KeepsQueue r b.incoming
      → total (by effect) s.sent + total cause b.incoming + k ≤ total (by cause) s.sent
      → Covered (after_bank s b r)
  after_bank-Covered s b (Outcome.handled (b', out)) k e c q h =
      rw (send_all_lem out (record s { bank = b' }), q)
        (omega (
          arith,
          total-append (by effect) s.sent (posted out),
          total-append (by cause) s.sent (posted out),
          total-append cause b.incoming (to_bank out),
          posted-le effect out,
          to_bank-le cause out,
          posted-le cause out,
        ))
  after_bank-Covered s b Outcome.skipped k e c q h = omega arith
  after_bank-Covered s b Outcome.thrown k e c q h = omega arith

  bank_wait-Covered :
      (s : System) (ms : List Message)
      → total (by effect) s.sent + total cause ms ≤ total (by cause) s.sent
      → Covered s
      → Covered (bank_wait s ms)
  bank_wait-Covered s [] e h = h
  bank_wait-Covered s (m ∷ q) e h =
      let b = record s.bank { incoming = q } in
      after_bank-Covered s b (Bank.receive b m) (cause m) (f.receive_le b m)
        (f.receive_no_cause b m) (receive-incoming b m) (omega arith)

  push_to-Covered :
      (q : QueueId) (m : Message) (s : System) → effect m ≡ 0 → Covered s → Covered (push_to q m s)
  push_to-Covered bank_queue m s e h = omega (
    arith,
    total-append (by effect) s.sent ((bank_queue, m) ∷ []),
    total-append (by cause) s.sent ((bank_queue, m) ∷ []),
    total-append cause s.bank.incoming (m ∷ []),
  )
  push_to-Covered q m s e h = omega (
    arith,
    total-append (by effect) s.sent ((q, m) ∷ []),
    total-append (by cause) s.sent ((q, m) ∷ []),
  )

  interface_step-Covered : (s : System) → Covered s → Covered (interface_step s)
  unfolding interface_step
  interface_step-Covered s h = ground arith

  live_step-Covered : (s : System) (m : Move) → Covered s → Covered (live_step s m)
  unfolding live_step
  live_step-Covered s teller_runs h = teller_step-Covered s h
  live_step-Covered s bank_runs h = bank_wait-Covered s s.bank.incoming h h
  live_step-Covered s interface_runs h = interface_step-Covered s h
  live_step-Covered s (press k) h = push_to-Covered atm_queue (key_message k) s (f.key_none k) h
  live_step-Covered s (done q) h = push_to-Covered q close_queue s f.close_none h

  pub run-Covered : (s : System) (ms : List Move) → Covered s → Covered (run s ms)
  run-Covered s ms h = run_keeps Covered live_step-Covered s ms h
