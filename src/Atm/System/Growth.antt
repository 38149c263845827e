-- ===== src/Atm/System/Growth.antt =====
-- The queue of the bank under the moves of the others.
use cxx.Common.{◌≡◌, refl, sym, List, [], ◌∷◌, ◌++◌, append-nil}
use cxx.Messaging.{Outcome}
use cxx.Atm.Message.{QueueId, atm_queue, bank_queue, interface_queue, Message}
use cxx.Atm.Teller
use cxx.Atm.Teller.{Mode}
use cxx.Atm.Interface
use cxx.Atm.Interface.{Line}
use cxx.Atm.System.Sending.{to_bank, send_all_lem}
use cxx.Atm.System.Defs.{
  System, push_to, after_teller, teller_wait, teller_step, after_interface, interface_wait,
  interface_step,
}

-- What a move puts at the end of the bank's queue.
abbrev pub Grows : List Message → System → Type 0
Grows q s = (more : List Message) × (s.bank.incoming ≡ q ++ more)

after_teller-Grows : (s : System) (r : Teller.Result) → Grows s.bank.incoming (after_teller s r)
after_teller-Grows s (a, out) = rw (send_all_lem out (record s { teller = a })) (to_bank out, refl)

pub teller_step-Grows : (s : System) → Grows s.bank.incoming (teller_step s)
unfolding teller_step
teller_step-Grows s = by_mode s.teller.mode refl
  where
    by_queue : (ms : List Message) → Grows s.bank.incoming (teller_wait s ms)
    by_queue [] = ([], sym (append-nil s.bank.incoming))
    by_queue (m ∷ q) =
        let a = record s.teller { incoming = q } in after_teller-Grows s (Teller.receive a m)

    by_mode : (k : Mode) → s.teller.mode ≡ k → Grows s.bank.incoming (teller_step s)
    by_mode Mode.calling e = rw (e, teller_step) (after_teller-Grows s (Teller.enter s.teller))
    by_mode Mode.waiting e = rw (e, teller_step) (by_queue s.teller.incoming)
    by_mode Mode.ended e = rw (e, teller_step) ([], sym (append-nil s.bank.incoming))

pub interface_step-Grows : (s : System) → Grows s.bank.incoming (interface_step s)
unfolding interface_step
interface_step-Grows s = by_queue s.interface
  where
    by_outcome :
        (q : List Message) (r : Outcome (List Line)) → Grows s.bank.incoming (after_interface s q r)
    by_outcome q (Outcome.handled lines) = ([], sym (append-nil s.bank.incoming))
    by_outcome q Outcome.skipped = ([], sym (append-nil s.bank.incoming))
    by_outcome q Outcome.thrown = ([], sym (append-nil s.bank.incoming))

    by_queue : (ms : List Message) → Grows s.bank.incoming (interface_wait s ms)
    by_queue [] = ([], sym (append-nil s.bank.incoming))
    by_queue (m ∷ q) = by_outcome q (Interface.receive m)

pub push_to-Grows : (q : QueueId) (m : Message) (s : System) → Grows s.bank.incoming (push_to q m s)
push_to-Grows atm_queue m s = ([], sym (append-nil s.bank.incoming))
push_to-Grows bank_queue m s = (m ∷ [], refl)
push_to-Grows interface_queue m s = ([], sym (append-nil s.bank.incoming))
