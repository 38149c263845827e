-- ===== src/Atm/System/Shutdown.antt =====
-- What done() of the bank machine does to the process.
use cxx.Common.{
  ℕ, zero, suc, ◌≤◌, ◌<◌, ◌≡◌, ◌∙◌, refl, sym, ap, subst, true, false, List, [], ◌∷◌, ◌++◌,
  append_assoc, arith, length, if-true, if-false, Bool-cases, inl, inr,
}
use cxx.Messaging.{Outcome}
use cxx.Atm.Message.{atm_queue, bank_queue, Message, close_queue}
use cxx.Atm.Bank
use cxx.Atm.Bank.{Bank}
use cxx.Atm.System.BankFlow.{KeepsQueue, receive-incoming}
use cxx.Atm.System.Keeps.{step_keeps}
use cxx.Atm.System.Sending.{to_bank, send_all_lem}
use cxx.Atm.System.Defs.{
  System, after_bank, bank_wait, bank_step, key_message, Move, teller_runs, bank_runs,
  interface_runs, press, done, live_step, step, run,
}
use cxx.Atm.System.Growth.{Grows, teller_step-Grows, interface_step-Grows, push_to-Grows}

-- The steps of the bank's thread in a schedule
abbrev pub bank_turns : List Move → ℕ
bank_turns [] = 0
bank_turns (bank_runs ∷ ms) = suc (bank_turns ms)
bank_turns (teller_runs ∷ ms) = bank_turns ms
bank_turns (interface_runs ∷ ms) = bank_turns ms
bank_turns (press k ∷ ms) = bank_turns ms
bank_turns (done q ∷ ms) = bank_turns ms

-- The process has ended, or a CloseQueue is among the first `k` messages of the bank.
data Closing (k : ℕ) (s : System) : Type 0 where
  gone : s.aborted ≡ true → Closing k s
  coming :
      (before after : List Message)
      → s.bank.incoming ≡ before ++ close_queue ∷ after
      → length before < k
      → Closing k s

grown-Closing :
    (k : ℕ) (s s' : System) (before after : List Message)
    → s.bank.incoming ≡ before ++ close_queue ∷ after
    → length before < k
    → Grows s.bank.incoming s'
    → Closing k s'
grown-Closing k s s' before after e l (more, g) =
    coming before (after ++ more)
      (g ∙ ap (λ q. q ++ more) e ∙ append_assoc before (close_queue ∷ after) more) l

-- A step of the bank takes one message, and a CloseQueue ends the process.
bank_step-Closing :
    (k : ℕ) (s : System) (before after : List Message)
    → s.bank.incoming ≡ before ++ close_queue ∷ after
    → length before < suc k
    → Closing k (bank_step s)
unfolding bank_step
bank_step-Closing k s before after e l =
    subst (λ q. Closing k (bank_wait s q)) (sym e) (by_front before l)
  where
    by_outcome :
        (q : List Message) (r : Outcome Bank.Result)
        → KeepsQueue r (q ++ close_queue ∷ after)
        → length q < k
        → Closing k (after_bank s (record s.bank { incoming = q ++ close_queue ∷ after }) r)
    by_outcome q (Outcome.handled (b', out)) keep h =
        rw (send_all_lem out (record s { bank = b' })) (
          coming q (after ++ to_bank out)
            (ap (λ t. t ++ to_bank out) keep ∙ append_assoc q (close_queue ∷ after) (to_bank out))
            h)
    by_outcome q Outcome.skipped keep h = coming q after refl h
    by_outcome q Outcome.thrown keep h = gone refl

    by_front :
        (q : List Message) → length q < suc k → Closing k (bank_wait s (q ++ close_queue ∷ after))
    by_front [] h = unfold Bank.receive in gone refl
    by_front (m ∷ q) h =
        let b = record s.bank { incoming = q ++ close_queue ∷ after } in
        by_outcome q (Bank.receive b m) (receive-incoming b m) (omega (arith, h))

-- A process that has ended makes no step.
step_gone : (s : System) (m : Move) → s.aborted ≡ true → step s m ≡ s
unfolding step
step_gone s m e = if-true s.aborted s (live_step s m) e

step_live : (s : System) (m : Move) → s.aborted ≡ false → step s m ≡ live_step s m
unfolding step
step_live s m e = if-false s.aborted s (live_step s m) e

step-Closing :
    (k : ℕ) (s : System) (m : Move)
    → ((before after : List Message)
        → s.bank.incoming ≡ before ++ close_queue ∷ after
        → length before < k
        → Grows s.bank.incoming (live_step s m))
    → Closing k s
    → Closing k (step s m)
step-Closing k s m g (gone e) = subst (Closing k) (sym (step_gone s m e)) (gone e)
step-Closing k s m g (coming before after e l) =
    step_keeps (Closing k) s m (coming before after e l)
      (grown-Closing k s (live_step s m) before after e l (g before after e l))

bank-Closing : (k : ℕ) (s : System) → Closing (suc k) s → Closing k (step s bank_runs)
unfolding live_step
bank-Closing k s (gone e) = subst (Closing k) (sym (step_gone s bank_runs e)) (gone e)
bank-Closing k s (coming before after e l) = elim (Bool-cases s.aborted) [
  | inl y ↦ subst (Closing k) (sym (step_gone s bank_runs y)) (gone y)
  | inr n ↦
      subst (Closing k) (sym (step_live s bank_runs n)) (bank_step-Closing k s before after e l)
]

run_gone : (ms : List Move) (s : System) → s.aborted ≡ true → (run s ms).aborted ≡ true
unfolding run
run_gone [] s e = e
run_gone (m ∷ ms) s e =
    subst (λ t. (run t ms).aborted ≡ true) (sym (step_gone s m e)) (run_gone ms s e)

Closing-gone : (s : System) → Closing 0 s → s.aborted ≡ true
Closing-gone s (gone e) = e
Closing-gone s (coming before after e l) = absurd (omega (arith, l))

run-gone :
    (ms : List Move) (k : ℕ) (s : System)
    → k ≤ bank_turns ms
    → Closing k s
    → (run s ms).aborted ≡ true
unfolding run live_step
run-gone ms zero s h c = run_gone ms s (Closing-gone s c)
run-gone [] (suc k) s h c = absurd (omega (arith, h))
run-gone (bank_runs ∷ ms) (suc k) s h c =
    run-gone ms k (step s bank_runs) (omega (arith, h)) (bank-Closing k s c)
run-gone (teller_runs ∷ ms) (suc k) s h c =
    run-gone ms (suc k) (step s teller_runs) h
      (step-Closing (suc k) s teller_runs (λ before after e l. teller_step-Grows s) c)
run-gone (interface_runs ∷ ms) (suc k) s h c =
    run-gone ms (suc k) (step s interface_runs) h
      (step-Closing (suc k) s interface_runs (λ before after e l. interface_step-Grows s) c)
run-gone (press key ∷ ms) (suc k) s h c = run-gone ms (suc k) (step s (press key)) h (
    step-Closing (suc k) s (press key)
      (λ before after e l. push_to-Grows atm_queue (key_message key) s) c)
run-gone (done q ∷ ms) (suc k) s h c =
    run-gone ms (suc k) (step s (done q)) h
      (step-Closing (suc k) s (done q) (λ before after e l. push_to-Grows q close_queue s) c)

-- After done() of the bank machine the process ends: once the bank's thread has made more steps than
-- its queue had messages when done() was called, whatever else happens in between, an exception has
-- left that thread's function, if the process had not ended before.
pub shutdown_lem :
    (s : System) (ms : List Move)
    → length s.bank.incoming < bank_turns ms
    → (run s (done bank_queue ∷ ms)).aborted ≡ true
unfolding run live_step
shutdown_lem s ms h =
    run-gone ms (suc (length s.bank.incoming)) (step s (done bank_queue)) (omega (arith, h))
      (elim (Bool-cases s.aborted) [
        | inl y ↦ subst (Closing _) (sym (step_gone s (done bank_queue) y)) (gone y)
        | inr n ↦
            subst (Closing _) (sym (step_live s (done bank_queue) n))
              (coming s.bank.incoming [] refl (omega arith))
      ])
